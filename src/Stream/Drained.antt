-- ===== src/Stream/Drained.antt =====
-- What is left of the queues of a stream that is destroyed (libuv/src/unix/stream.c).
use libuv_analyse.Base.{
  ℕ, zero, suc, ◌+◌, ◌-◌, ◌^◌, ◌<◌, ◌≡◌, refl, sym, ap, subst, ◌∙◌, inl, inr, by_if, Option-cases,
  List, [], ◌∷◌, ◌++◌, Option, none, some, length, length-append, ◌==◌, arith,
}
use libuv_analyse.Loop.{req_unregister}
use libuv_analyse.Heap.{Ptr, null}
use libuv_analyse.Stream.{Errno, ecanceled, Buf, Req, Stream, World, count_bufs}
use libuv_analyse.Stream.Output.{
  write_req_size, complete, complete_next, complete_all, write_callbacks, with_error,
  stream_flush_write_queue,
}
use libuv_analyse.Stream.Calls.{cancel, cancel_shutdown, stream_destroy}
use libuv_analyse.Stream.Sizes.{total, count_bufs_total}
use libuv_analyse.Stream.Balance.{held, held_all, held_all-append, IsBalanced}

-- What a callback leaves as it is on a stream without a descriptor: uv_write2 and uv_shutdown fail there.
pub record Keeps (s t : Stream) : Type 0 where
  pub fd : t.fd ≡ s.fd
  pub write_queue : t.write_queue ≡ s.write_queue
  pub completed : t.write_completed_queue ≡ s.write_completed_queue
  pub moved : t.moved ≡ s.moved
  pub size : t.write_queue_size ≡ s.write_queue_size

held-some : (r : Req) (bs : List Buf) → r.bufs ≡ some bs → held r ≡ total bs
unfolding held
held-some r bs e = rw (held, e) refl

size_some : (r : Req) (bs : List Buf) → r.bufs ≡ some bs → write_req_size r ≡ count_bufs bs
unfolding write_req_size
size_some r bs e = rw (write_req_size, e) refl

write_req_size-held : (r : Req) → held r < 2 ^ 64 → write_req_size r ≡ held r
unfolding write_req_size held
write_req_size-held r room = elim (Option-cases r.bufs) [
  | inl e ↦ rw (write_req_size, held, e) refl
  | inr (bs, e) ↦
      let whole : total bs < 2 ^ 64 = subst (λ n. n < 2 ^ 64) (held-some r bs e) room in
      size_some r bs e ∙ count_bufs_total bs whole ∙ sym (held-some r bs e)
]

-- The requests `q` are left to complete, and no others.
record IsLast (q : List Req) (s : Stream) : Type 0 where
  no_fd : s.fd ≡ none
  no_queue : s.write_queue ≡ []
  no_completed : s.write_completed_queue ≡ []
  moved : s.moved ≡ q
  size : s.write_queue_size ≡ held_all q
  word : s.write_queue_size < 2 ^ 64

module _ (w : World)
    (keeps : (c p : Ptr) (e : Option Errno) (t : Stream)
      → t.fd ≡ none
      → Keeps t (w.call c p e t)) where
  IsLast-Keeps : (q : List Req) (s t : Stream) → IsLast q s → Keeps s t → IsLast q t
  IsLast-Keeps q s t l k = record {
    no_fd = k.fd ∙ l.no_fd;
    no_queue = k.write_queue ∙ l.no_queue;
    no_completed = k.completed ∙ l.no_completed;
    moved = k.moved ∙ l.moved;
    size = k.size ∙ l.size;
    word = omega (arith, k.size, l.word);
  }

  complete-IsLast :
      (r : Req) (rest : List Req) (s : Stream)
      → IsLast (r ∷ rest) s
      → IsLast rest (complete w r rest s)
  unfolding complete held_all
  complete-IsLast r rest s l =
      let held_r : held r < 2 ^ 64 = omega (arith, l.size, l.word) in
      let size_r = write_req_size-held r held_r in
      let s₁ : Stream = record s {
        moved = rest;
        active_reqs = req_unregister s.active_reqs;
        write_queue_size = s.write_queue_size - write_req_size r;
      } in
      let last : IsLast rest s₁ = record {
        no_fd = l.no_fd;
        no_queue = l.no_queue;
        no_completed = l.no_completed;
        moved = refl;
        size = omega (arith, l.size, size_r);
        word = omega (arith, l.word);
      } in
      by_if (IsLast rest) (r.cb == null) (λ _. last)
        (λ _. IsLast-Keeps rest s₁ _ last (keeps r.cb r.self r.error s₁ l.no_fd))

  next_of_moved :
      (fuel : ℕ) (q : List Req) (s : Stream)
      → s.moved ≡ q
      → complete_all (suc fuel) w s
        ≡ complete_next q s (λ r rest. complete_all fuel w (complete w r rest s))
  unfolding complete_all
  next_of_moved fuel q s e =
      ap (λ p. complete_next p s (λ r rest. complete_all fuel w (complete w r rest s))) e

  complete_all-ends :
      (fuel : ℕ) (q : List Req) (s : Stream)
      → length q < fuel
      → IsLast q s
      → (t : Stream) × (complete_all fuel w s ≡ some t) × IsLast [] t
  unfolding complete_next
  complete_all-ends zero q s enough l = absurd (omega (arith, enough))
  complete_all-ends (suc fuel) [] s enough l = (s, next_of_moved fuel [] s l.moved, l)
  complete_all-ends (suc fuel) (r ∷ rest) s enough l =
      let next = complete-IsLast r rest s l in
      let (t, ends, last) =
        complete_all-ends fuel rest (complete w r rest s) (omega (arith, enough)) next in
      (t, next_of_moved fuel (r ∷ rest) s l.moved ∙ ends, last)

  cancel-Keeps :
      (cb : Ptr → Ptr) (o : Option Ptr) (s : Stream) → s.fd ≡ none → Keeps s (cancel w cb o s)
  unfolding cancel
  cancel-Keeps cb none s closed = record {
    fd = refl;
    write_queue = refl;
    completed = refl;
    moved = refl;
    size = refl;
  }
  cancel-Keeps cb (some p) s closed =
      let s₁ = record s { active_reqs = req_unregister s.active_reqs } in
      let k = keeps (cb p) p (some ecanceled) s₁ closed in
      record {
        fd = k.fd;
        write_queue = k.write_queue;
        completed = k.completed;
        moved = k.moved;
        size = k.size;
      }

held_all_nil : held_all [] ≡ 0
unfolding held_all
held_all_nil = refl

held-with_error : (e : Errno) (q : List Req) → held_all (with_error e q) ≡ held_all q
unfolding with_error held_all held
held-with_error e [] = refl
held-with_error e (r ∷ q) = omega (arith, held-with_error e q)

length-with_error : (e : Errno) (q : List Req) → length (with_error e q) ≡ length q
unfolding with_error
length-with_error e [] = refl
length-with_error e (r ∷ q) = omega (arith, length-with_error e q)

-- uv__stream_destroy of a stream whose descriptor is closed, with enough fuel for the requests that are queued,
-- ends. It leaves no request in a queue, and `write_queue_size` is 0, as it asserts, if the size was that
-- of the requests before, and the callbacks leave the queues of a stream without a descriptor as they are.
pub stream_destroy-drained :
    (fuel others : ℕ) (w : World) (cb : Ptr → Ptr) (s : Stream)
    → ((c p : Ptr) (e : Option Errno) (t : Stream) → t.fd ≡ none → Keeps t (w.call c p e t))
    → s.fd ≡ none
    → s.moved ≡ []
    → IsBalanced others s
    → length s.write_queue + length s.write_completed_queue < fuel
    → (t : Stream) × (stream_destroy fuel w cb s ≡ some t)
      × (t.write_queue_size ≡ 0)
      × (t.write_queue ≡ [])
      × (t.write_completed_queue ≡ [])
unfolding stream_destroy write_callbacks stream_flush_write_queue cancel_shutdown
stream_destroy-drained fuel others w cb s keeps closed not_running b enough =
    let s₁ = record (cancel w cb s.connect_req s) { connect_req = none } in
    let k = cancel-Keeps w keeps cb s.connect_req s closed in
    let errors = with_error ecanceled s₁.write_queue in
    let q = s₁.write_completed_queue ++ errors in
    let bytes : held_all q ≡ s.write_queue_size = omega (
      arith,
      held_all-append s₁.write_completed_queue errors,
      held-with_error ecanceled s₁.write_queue,
      ap held_all k.write_queue,
      ap held_all k.completed,
      ap held_all not_running,
      held_all_nil,
      b.size,
    ) in
    let number : length q < fuel = omega (
      arith,
      length-append s₁.write_completed_queue errors,
      length-with_error ecanceled s₁.write_queue,
      ap (λ (p : List Req). length p) k.write_queue,
      ap (λ (p : List Req). length p) k.completed,
      enough,
    ) in
    let start : Stream = record (stream_flush_write_queue ecanceled s₁) {
      moved = q;
      write_completed_queue = [];
    } in
    let (t, ends, last) = complete_all-ends w keeps fuel q start number (record {
      no_fd = k.fd ∙ closed;
      no_queue = refl;
      no_completed = refl;
      moved = refl;
      size = omega (arith, k.size, bytes);
      word = omega (arith, k.size, b.word);
    }) in
    let k₁ = cancel-Keeps w keeps cb t.shutdown_req t last.no_fd in
    (
      record (cancel w cb t.shutdown_req t) { shutdown_req = none },
      ap (cancel_shutdown w cb) ends,
      omega (arith, k₁.size, last.size, held_all_nil),
      k₁.write_queue ∙ last.no_queue,
      k₁.completed ∙ last.no_completed,
    )
