-- ===== src/Stream/Balance.antt =====
-- The size of the queues of a stream, and the requests that are registered (libuv/src/unix/stream.c).
use mathlib.Core.Bool.{false≢true}
use libuv_analyse.Base.{
  ℕ, suc, ◌+◌, ◌-◌, ◌^◌, ◌≤◌, ◌<◌, ◌≡◌, refl, ap, ◌∙◌, inl, inr, Bool, true, Option-cases, by_if,
  List, [], ◌∷◌, ◌++◌, none, some, length, length-append, take, arith,
}
use libuv_analyse.Heap.{null}
use libuv_analyse.Stream.{Errno, Buf, Req, Stream, bytes_of}
use libuv_analyse.Stream.Output.{
  advance, write_req_update, is_done, freed, stream_of, write_req_finish, Tried, wrote, again,
  fails, wait_for_room, written, fail_write, after_try, bufs_of,
}
use libuv_analyse.Stream.Sizes.{total, total-advance}

-- The bytes that a request holds: those of its buffers, while they are not freed.
unfoldable pub held : Req → ℕ
unfolding total
held r = elim r.bufs [ none ↦ 0 | some bs ↦ total bs ]

unfoldable pub held_all : List Req → ℕ
held_all [] = 0
held_all (r ∷ q) = held r + held_all q

pub held_all-append : (p q : List Req) → held_all (p ++ q) ≡ held_all p + held_all q
unfolding held_all
held_all-append [] q = omega arith
held_all-append (r ∷ p) q = omega (arith, held_all-append p q)

-- `write_queue_size` is the size of what the requests hold, and the loop counts these requests, beside `others`.
pub record IsBalanced (others : ℕ) (s : Stream) : Type 0 where
  pub size :
      s.write_queue_size
      ≡ held_all s.write_queue + held_all s.write_completed_queue + held_all s.moved
  pub word : s.write_queue_size < 2 ^ 64
  pub registered :
      s.active_reqs
      ≡ others + length s.write_queue + length s.write_completed_queue + length s.moved

pub held-bufs_of : (r : Req) → held r ≡ total (bufs_of r)
unfolding held total
held-bufs_of r = elim (Option-cases r.bufs) [
  | inl e ↦ rw (held, e) refl
  | inr (bs, e) ↦ rw (held, e) refl
]

held-freed : (r : Req) → total (bufs_of r) ≡ 0 → held (freed r) ≡ 0
unfolding freed held
held-freed r nothing = elim (Option-cases r.error) [
  | inl e ↦ rw (freed, e) refl
  | inr (x, e) ↦ rw (freed, e) (held-bufs_of r ∙ nothing)
]

pub total-is_done : (bs : List Buf) → is_done bs ≡ true → total bs ≡ 0
unfolding total
total-is_done [] done = refl
total-is_done (b ∷ bs) done = absurd (false≢true done)

pub held_all-snoc : (q : List Req) (r : Req) → held_all (q ++ (r ∷ [])) ≡ held_all q + held r
unfolding held_all
held_all-snoc q r = omega (arith, held_all-append q (r ∷ []))

-- The stream has the requests `r ∷ rest` to write.
module _ {others : ℕ} {s : Stream} (b : IsBalanced others s) (r : Req) (rest : List Req)
    (queue : s.write_queue ≡ r ∷ rest) where
  heads :
      (held_all s.write_queue ≡ total (bufs_of r) + held_all rest)
      × (length s.write_queue ≡ suc (length rest))
  unfolding held_all
  heads = (ap held_all queue ∙ omega (arith, held-bufs_of r), ap (λ (q : List Req). length q) queue)

  write_req_finish-IsBalanced :
      (r' : Req) (size' : ℕ) (sent' : List ℕ)
      → size' + total (bufs_of r) ≡ s.write_queue_size + held (freed r')
      → size' ≤ s.write_queue_size
      → IsBalanced others
          (write_req_finish r' rest (record s { write_queue_size = size'; sent = sent' }))
  unfolding write_req_finish
  write_req_finish-IsBalanced r' size' sent' less lower =
      let (held_wq, length_wq) = heads in
      record {
        size =
            omega (arith, less, b.size, held_wq, held_all-snoc s.write_completed_queue (freed r'));
        word = omega (arith, b.word, lower);
        registered =
            omega (
              arith,
              b.registered,
              length_wq,
              length-append s.write_completed_queue (freed r' ∷ []),
            );
      }

  -- The request stays at the head, with other buffers.
  stays-IsBalanced :
      (left : List Buf) (size' : ℕ) (sent' : List ℕ) (out : Bool)
      → size' + total (bufs_of r) ≡ s.write_queue_size + total left
      → size' ≤ s.write_queue_size
      → IsBalanced others (record s {
        write_queue = record r { bufs = some left; send_handle = null } ∷ rest;
        write_queue_size = size';
        sent = sent';
        pollout = out;
      })
  unfolding held_all held
  stays-IsBalanced left size' sent' out less lower =
      let (held_wq, length_wq) = heads in
      record {
        size = omega (arith, less, b.size, held_wq);
        word = omega (arith, b.word, lower);
        registered = omega (arith, b.registered, length_wq);
      }

  written-IsBalanced :
      (n : ℕ)
      → n ≤ total (bufs_of r)
      → IsBalanced others (stream_of (written n r (bufs_of r) rest s))
  unfolding written wait_for_room write_req_update
  written-IsBalanced n few =
      let (held_wq, length_wq) = heads in
      let left = advance n (bufs_of r) in
      let less : total left + n ≡ total (bufs_of r) = total-advance n (bufs_of r) few in
      let size' : ℕ = s.write_queue_size - n in
      let sent' = s.sent ++ take n (bytes_of (bufs_of r)) in
      let r' = record r { bufs = some left; send_handle = null } in
      by_if (λ t. IsBalanced others (stream_of t)) (is_done left)
        (λ done.
          let empty = total-is_done left done in
          let gone : held (freed r') ≡ 0 = held-freed r' empty in
          write_req_finish-IsBalanced r' size' sent'
            (omega (arith, less, empty, gone, few, b.size, held_wq)) (omega arith))
        (λ _.
          let stays : (out : Bool)
              → IsBalanced others (record s {
                write_queue = r' ∷ rest;
                write_queue_size = size';
                sent = sent';
                pollout = out;
              }) =
            λ out.
              stays-IsBalanced left size' sent' out (omega (arith, less, few, b.size, held_wq))
                (omega arith) in
          by_if (λ t. IsBalanced others (stream_of t)) s.blocking_writes (λ _. stays s.pollout)
            (λ _. stays true))

  fail_write-IsBalanced : (e : Errno) → IsBalanced others (fail_write e r rest s)
  unfolding fail_write freed total held
  fail_write-IsBalanced e =
      let kept = held-bufs_of r in
      let f =
        write_req_finish-IsBalanced (record r { error = some e }) s.write_queue_size s.sent
          (omega (arith, kept)) (omega arith) in
      record { size = f.size; word = f.word; registered = f.registered }

  wait_for_room-IsBalanced : IsBalanced others (stream_of (wait_for_room s))
  unfolding wait_for_room
  wait_for_room-IsBalanced =
      by_if (λ t. IsBalanced others (stream_of t)) s.blocking_writes (λ _. b)
        (λ _. record { size = b.size; word = b.word; registered = b.registered })

  pub after_try-IsBalanced :
      (t : Tried)
      → ((n : ℕ) → t ≡ wrote n → n ≤ total (bufs_of r))
      → IsBalanced others (stream_of (after_try t r (bufs_of r) rest s))
  unfolding after_try
  after_try-IsBalanced (wrote n) few = written-IsBalanced n (few n refl)
  after_try-IsBalanced again few = wait_for_room-IsBalanced
  after_try-IsBalanced (fails e) few = fail_write-IsBalanced e
