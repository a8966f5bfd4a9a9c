-- ===== src/Threadpool.antt =====
-- The thread pool: libuv/src/threadpool.c, with the requests of one loop. The threads, the loop and the
-- callers interleave: what happens under a mutex is one step (Threadpool/Steps).
pub mod Tally
pub mod Sound
pub mod Pick
pub mod Round
pub mod Turn
pub mod Parts
pub mod Queues
pub mod Steps
pub mod Fate
pub mod Account
pub mod Cancel
pub mod Runs
pub mod Init
pub mod Tests
use libuv_analyse.Base.{
  ℕ, zero, suc, ◌+◌, ◌-◌, ◌/◌, ◌%◌, ◌^◌, ◌≤◌, ◌<◌, ◌≡◌, Bool, true, false, ◌&&◌, ◌||◌, not, Option,
  none, some, List, [], ◌∷◌, ◌++◌, ltb, leb, ◌==◌, if◌then◌else◌, set, get_elem?,
}
use libuv_analyse.Loop.{Status, success, einval, ebusy}
use libuv_analyse.Loop.Count.{occurrences}
use libuv_analyse.Watcher.{without}

-- A `struct uv__work` stands at an address. Its function is NULL, uv__cancelled or the caller's.
abbrev pub Ptr : Type 0
Ptr = ℕ

pub data WorkFn : Type 0 where
  null_work cancelled_work user_work : WorkFn

-- enum uv__work_kind.
pub data WorkKind : Type 0 where
  cpu fast_io slow_io : WorkKind

-- What stands in `wq`: a request, `exit_message` or `run_slow_work_message`.
pub data Entry : Type 0 where
  job : Ptr → Entry
  exit_message run_slow_work_message : Entry

-- Where a thread stands: before it takes the mutex for the first time, in uv_cond_wait, in `w->work(w)`,
-- behind it with the request handed back, or at its end. The Boolean is `is_slow_work`.
pub data Pc : Type 0 where
  top waiting exited : Pc
  running : Ptr → Bool → Pc
  finished : Bool → Pc

-- The globals of the file, the threads, the functions of the requests, and of the loop its queue `wq`,
-- whether uv_async_send has been called since uv__work_done last ran, and the local queue of
-- uv__work_done. `signalled` counts the waiting threads that a uv_cond_signal has unblocked.
-- `called` lists the requests whose `done` has been called, with the error, the newest first;
-- `active_reqs` is the count of the loop. `stale` says of a request that uv__work_done has taken its node
-- out of the queue, with no QUEUE_INIT behind the QUEUE_REMOVE, so that `wq` of the request still points
-- to others.
pub record Pool : Type 0 where
  pub nthreads : ℕ
  pub idle_threads : ℕ
  pub slow_io_work_running : ℕ
  pub wq : List Entry
  pub slow_io_pending_wq : List Ptr
  pub threads : List Pc
  pub signalled : ℕ
  pub work : Ptr → WorkFn
  pub loop_wq : List Ptr
  pub async_sent : Bool
  pub delivering : List Ptr
  pub called : List (Ptr × Bool)
  pub stale : Ptr → Bool
  pub active_reqs : ℕ

abbrev pub slow_work_thread_threshold : Pool → ℕ
slow_work_thread_threshold p = (p.nthreads + 1) / 2

abbrev pub at_threshold : Pool → Bool
at_threshold p = leb (slow_work_thread_threshold p) p.slow_io_work_running

-- `x++` and `x--` on an `unsigned int`.
abbrev pub incr : ℕ → ℕ
incr x = (x + 1) % 2 ^ 32

abbrev pub decr : ℕ → ℕ
decr x = (x + (2 ^ 32 - 1)) % 2 ^ 32

-- uv_cond_signal unblocks one of the threads that wait and have not been unblocked, where there is one.
pub signal : Pool → Pool
signal p = record p {
  signalled = if ltb p.signalled p.idle_threads then p.signalled + 1 else p.signalled;
}

abbrev pub signal_idle : Pool → Pool
signal_idle p = if ltb 0 p.idle_threads then signal p else p

-- The end of `worker`'s turn at the queue for a slow request: it takes the first of the pending ones, and
-- queues the message again where there are more.
pub take_slow : Ptr → List Ptr → List Entry → Pool → Pc × Pool
unfolding signal
take_slow w [] q p = (
  running w true,
  record p { wq = q; slow_io_pending_wq = []; slow_io_work_running = incr p.slow_io_work_running },
)
take_slow w (v ∷ rest) q p = (
  running w true,
  signal_idle (record p {
    wq = q ++ (run_slow_work_message ∷ []);
    slow_io_pending_wq = v ∷ rest;
    slow_io_work_running = incr p.slow_io_work_running;
  }),
)

-- What follows the test of the threshold: with no slow request pending the loop goes on.
pub start_slow : List Ptr → List Entry → Pool → Option (Pc × Pool) → Option (Pc × Pool)
unfolding take_slow
start_slow [] q p rest = rest
start_slow (w ∷ s) q p rest = some (take_slow w s q p)

pub is_empty : List Entry → Bool
is_empty [] = true
is_empty (e ∷ q) = false

abbrev pub wait : Pool → Option (Pc × Pool)
wait p = some (waiting, record p { idle_threads = incr p.idle_threads })

-- The loop of `worker` while it holds the mutex, on fuel: the thread waits, ends or has a request to run.
-- The second argument is `wq`. Two rounds are enough, since the message stands in `wq` once at most.
pub pick : ℕ → List Entry → Pool → Option (Pc × Pool)
unfolding start_slow is_empty
pick zero q p = none
pick (suc fuel) [] p = wait p
pick (suc fuel) (exit_message ∷ q) p = some (exited, signal p)
pick (suc fuel) (job w ∷ q) p = some (running w false, record p { wq = q })
pick (suc fuel) (run_slow_work_message ∷ q) p =
    let back = q ++ (run_slow_work_message ∷ []) in
    let later = pick fuel back (record p { wq = back }) in
    let rest = pick fuel q (record p { wq = q }) in
    if at_threshold p
    then (if is_empty q then wait p else later)
    else start_slow p.slow_io_pending_wq q p rest

pub placed : ℕ → Option (Pc × Pool) → Option Pool
placed i none = none
placed i (some (pc, p)) = some (record p { threads = set p.threads i pc })

-- Thread `i` takes its turn at the queue.
unfoldable pub turn : ℕ → Pool → Option Pool
unfolding placed
turn i p = placed i (pick 2 p.wq p)

-- A waiting thread wakes up, unblocked by a signal or by itself.
unfoldable pub leave_wait : Bool → ℕ → Pool → Pool
leave_wait unblocked i p = record p {
  idle_threads = decr p.idle_threads;
  signalled = if unblocked then p.signalled - 1 else p.signalled;
  threads = set p.threads i top;
}

-- `w->work = NULL; QUEUE_INSERT_TAIL(&w->loop->wq, &w->wq); uv_async_send(...)`, once the work is done.
unfoldable pub hand_back : Ptr → Bool → ℕ → Pool → Pool
hand_back w slow i p = record p {
  work = λ v. if v == w then null_work else p.work v;
  loop_wq = p.loop_wq ++ (w ∷ []);
  async_sent = true;
  threads = set p.threads i (finished slow);
}

unfoldable pub leave_work : Bool → ℕ → Pool → Pool
leave_work slow i p = record p {
  slow_io_work_running = if slow then decr p.slow_io_work_running else p.slow_io_work_running;
  threads = set p.threads i top;
}

-- `!QUEUE_EMPTY(&run_slow_work_message)`.
pub is_scheduled : List Entry → Bool
is_scheduled [] = false
is_scheduled (run_slow_work_message ∷ q) = true
is_scheduled (exit_message ∷ q) = is_scheduled q
is_scheduled (job w ∷ q) = is_scheduled q

-- The end of `post`.
pub enqueue : Entry → Pool → Pool
unfolding signal
enqueue e p = signal_idle (record p { wq = p.wq ++ (e ∷ []) })

pub post : Ptr → WorkKind → Pool → Pool
unfolding enqueue is_scheduled
post w slow_io p =
    let p₁ = record p { slow_io_pending_wq = p.slow_io_pending_wq ++ (w ∷ []) } in
    if is_scheduled p.wq then p₁ else enqueue run_slow_work_message p₁
post w cpu p = enqueue (job w) p
post w fast_io p = enqueue (job w) p

-- uv__work_submit, behind uv_once. The node is inserted, and `worker` takes it out with a QUEUE_INIT.
unfoldable pub work_submit : Ptr → WorkKind → Pool → Pool
unfolding post
work_submit w kind p = post w kind (record p {
  work = λ v. if v == w then user_work else p.work v;
  stale = λ v. if v == w then false else p.stale v;
})

-- The first step of uv__threadpool_cleanup; then it waits for the threads to end.
unfoldable pub threadpool_cleanup : Pool → Pool
unfolding enqueue
threadpool_cleanup p = if p.nthreads == 0 then p else enqueue exit_message p

-- How often a request stands in `wq`.
unfoldable pub jobs : Ptr → List Entry → ℕ
jobs w [] = 0
jobs w (job v ∷ q) = (if v == w then 1 else 0) + jobs w q
jobs w (exit_message ∷ q) = jobs w q
jobs w (run_slow_work_message ∷ q) = jobs w q

-- QUEUE_REMOVE of a request, from the queue in which it stands.
pub without_job : Ptr → List Entry → List Entry
without_job w [] = []
without_job w (job v ∷ q) = let rest = without_job w q in if v == w then q else job v ∷ rest
without_job w (exit_message ∷ q) = exit_message ∷ without_job w q
without_job w (run_slow_work_message ∷ q) = run_slow_work_message ∷ without_job w q

-- `!QUEUE_EMPTY(&w->wq)`: the node is in a queue, or was when uv__work_done took it out. It is empty while the
-- request runs, since `worker` sets it so. In a request that was never submitted it is not set; here
-- it is empty.
abbrev pub is_linked : Ptr → Pool → Bool
is_linked w p =
    p.stale w
    || ltb 0 (
        jobs w p.wq
        + occurrences w p.slow_io_pending_wq
        + occurrences w p.loop_wq
        + occurrences w p.delivering)

pub has_work : WorkFn → Bool
has_work null_work = false
has_work cancelled_work = true
has_work user_work = true

-- A stale node with a function, of a request that was cancelled and whose `done` has been called, passes the
-- test too: the request is queued for the loop again. What the QUEUE_REMOVE of such a node writes into
-- the nodes that it still points to is not modelled.
unfoldable pub work_cancel : Ptr → Pool → Status × Pool
unfolding without_job without has_work
work_cancel w p =
    if is_linked w p && has_work (p.work w)
    then (
      success,
      record p {
        wq = without_job w p.wq;
        slow_io_pending_wq = without w p.slow_io_pending_wq;
        loop_wq = without w p.loop_wq ++ (w ∷ []);
        delivering = without w p.delivering;
        work = λ v. if v == w then cancelled_work else p.work v;
        async_sent = true;
        stale = λ v. if v == w then false else p.stale v;
      },
    )
    else (ebusy, p)

-- uv__work_done takes the queue of the loop, and then calls `done` for one request after the other.
unfoldable pub collect : Pool → Pool
collect p = record p { delivering = p.loop_wq; loop_wq = []; async_sent = false }

pub is_cancelled : WorkFn → Bool
is_cancelled null_work = false
is_cancelled cancelled_work = true
is_cancelled user_work = false

unfoldable pub deliver : Ptr → List Ptr → Pool → Pool
unfolding is_cancelled
deliver w rest p = record p {
  delivering = rest;
  called = (w, is_cancelled (p.work w)) ∷ p.called;
  stale = λ v. if v == w then true else p.stale v;
}

-- `work_cb == NULL` is 0. uv__req_init registers the request with the loop.
unfoldable pub queue_work : Ptr → Ptr → Pool → Status × Pool
queue_work w work_cb p =
    if work_cb == 0
    then (einval, p)
    else (success, work_submit w cpu (record p { active_reqs = incr p.active_reqs }))

-- The `done` of uv_queue_work; `none` for a NULL `after_work_cb`.
unfoldable pub queue_done : Option (Ptr → Bool → Pool → Pool) → Ptr → Bool → Pool → Pool
queue_done after_work_cb w err p =
    let p₁ = record p { active_reqs = decr p.active_reqs } in
    elim after_work_cb [ none ↦ p₁ | some call ↦ call w err p₁ ]

pub data ReqType : Type 0 where
  req connect write shutdown udp_send fs work_req getaddrinfo getnameinfo random : ReqType

unfoldable pub cancel : ReqType → Ptr → Pool → Status × Pool
cancel type w p = elim type [
  | fs ↦ work_cancel w p
  | getaddrinfo ↦ work_cancel w p
  | getnameinfo ↦ work_cancel w p
  | random ↦ work_cancel w p
  | work_req ↦ work_cancel w p
  | _ ↦ (einval, p)
]
