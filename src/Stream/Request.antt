-- ===== src/Stream/Request.antt =====
-- uv_write2 (libuv/src/unix/stream.c): what it does to the queues.
use libuv_analyse.Base.{
  ℕ, ◌+◌, ◌^◌, ◌<◌, ◌≡◌, refl, false, true, ap, ◌∙◌, sym, subst, inl, Bool, ◌&&◌, not, by_if, List,
  [], ◌∷◌, ◌++◌, append_assoc, append-nil, Option, none, some, length, length-append, ltb, ◌==◌,
  arith,
}
use libuv_analyse.Heap.{Ptr}
use libuv_analyse.Stream.{Buf, Req, Stream, Answer, World, bytes_of}
use libuv_analyse.Stream.Output.{bufs_of, write}
use libuv_analyse.Stream.Calls.{
  check_asserts, queue_asserts, check_before_write, bufsml_size, enqueue, is_some, Called, ok,
  to_called, write_checked, if_valid, write2,
}
use libuv_analyse.Stream.Sizes.{total, count_bufs_total}
use libuv_analyse.Stream.Balance.{held, held_all, held_all-append, IsBalanced}
use libuv_analyse.Stream.Turns.{IsBalancedEnd, write_end-IsBalanced}
use libuv_analyse.Stream.Progress.{IsEnough, write-InOrder}
use libuv_analyse.Stream.Bytes.{pending, flow, InOrder}

pending-append : (p q : List Req) → pending (p ++ q) ≡ pending p ++ pending q
unfolding pending
pending-append [] q = refl
pending-append (r ∷ p) q =
    rw (pending-append p q) (sym (append_assoc (bytes_of (bufs_of r)) (pending p) (pending q)))

-- A request that is queued adds its bytes behind all others.
pub flow-enqueue :
    (self : Ptr) (bs : List Buf) (send_handle cb : Ptr) (s : Stream)
    → flow (enqueue self bs send_handle cb s) ≡ flow s ++ bytes_of bs
unfolding flow enqueue pending
flow-enqueue self bs send_handle cb s =
    rw (pending-append s.write_queue _) (simp (append_assoc, append-nil))

enqueue-IsBalanced :
    (others : ℕ) (self : Ptr) (bs : List Buf) (send_handle cb : Ptr) (s : Stream)
    → s.write_queue_size + total bs < 2 ^ 64
    → s.active_reqs + 1 < 2 ^ 32
    → IsBalanced others s
    → IsBalanced others (enqueue self bs send_handle cb s)
unfolding enqueue held_all held
enqueue-IsBalanced others self bs send_handle cb s room few b =
    let count = count_bufs_total bs (omega (arith, room)) in
    let r : Req = record {
      self = self;
      cb = cb;
      bufs = some bs;
      error = none;
      send_handle = send_handle;
    } in
    record {
      size = omega (arith, count, room, b.size, held_all-append s.write_queue (r ∷ []));
      word = omega arith;
      registered = omega (arith, b.registered, length-append s.write_queue (r ∷ []));
    }

-- The request is queued, in order and with the sizes right.
abbrev Queued : ℕ → Ptr → List Buf → Ptr → Ptr → Stream → Option Called → Type 0
Queued others self bs send_handle cb s o =
    (t : Stream) × (left : List Answer) × (o ≡ some (ok t left))
    × IsBalanced others t
    × InOrder (enqueue self bs send_handle cb s) t

to_called-Queued :
    (fuel others : ℕ) (w : World) (answers : List Answer) (self : Ptr) (bs : List Buf)
    (send_handle cb : Ptr) (s : Stream)
    → length answers < fuel
    → IsEnough s.blocking_writes answers
    → IsBalanced others (enqueue self bs send_handle cb s)
    → Queued others self bs send_handle cb s
        (to_called (write fuel w answers (enqueue self bs send_handle cb s)))
unfolding enqueue to_called IsBalancedEnd
to_called-Queued fuel others w answers self bs send_handle cb s more enough b =
    let s₁ = enqueue self bs send_handle cb s in
    let (t, left, e, order) = write-InOrder fuel w answers s₁ more enough in
    (
      t,
      left,
      ap to_called e,
      subst (IsBalancedEnd others) e (write_end-IsBalanced fuel others w answers s₁ b),
      order,
    )

write_checked-Queued :
    (fuel others : ℕ) (w : World) (memory : Bool) (answers : List Answer) (self : Ptr)
    (bs : List Buf) (send_handle cb : Ptr) (s : Stream)
    → length answers < fuel
    → IsEnough s.blocking_writes answers
    → s.write_queue_size + total bs < 2 ^ 64
    → s.active_reqs + 1 < 2 ^ 32
    → IsBalanced others s
    → (ltb bufsml_size (length bs) && not memory) ≡ false
    → Queued others self bs send_handle cb s
        (write_checked fuel w memory answers self bs send_handle cb s)
unfolding write_checked flow
write_checked-Queued fuel others w memory answers self bs send_handle cb s more enough room few b
      got =
    let s₁ = enqueue self bs send_handle cb s in
    let c = enqueue-IsBalanced others self bs send_handle cb s room few b in
    let P = Queued others self bs send_handle cb s in
    by_if P (ltb bufsml_size (length bs) && not memory)
      (λ failed. absurd (ground (arith, failed, got)))
      (λ _.
        by_if P (is_some s.connect_req) (λ _. (s₁, answers, refl, c, inl refl))
          (λ _.
            by_if P (s.write_queue_size == 0)
              (λ _. to_called-Queued fuel others w answers self bs send_handle cb s more enough c)
              (λ _. (
                record s₁ { pollout = true },
                answers,
                refl,
                record { size = c.size; word = c.word; registered = c.registered },
                inl refl,
              ))))

-- uv_write2 of a stream and a handle that pass the checks, with memory where the request has more than four buffers,
-- and where no assertion fails (there is a buffer, the stream is a TCP stream, a pipe or a TTY, and it does not block
-- where it is not connecting and its queue has bytes), returns 0, whatever the system answers, where the answers are enough for uv__write. It keeps the size of the queues
-- and the count of the requests right, where neither the new size nor the new count overflows. The bytes of the request
-- follow all others: with it at the end of the queue, what is sent and then what waits are the bytes from before and
-- then its own, and uv_write2 leaves these so, or the request that is first has failed, and only bytes of this one are
-- dropped.
pub write2_lem :
    (fuel others : ℕ) (w : World) (memory : Bool) (answers : List Answer) (self : Ptr)
    (bs : List Buf) (send_handle cb : Ptr) (s : Stream)
    → length answers < fuel
    → IsEnough s.blocking_writes answers
    → s.write_queue_size + total bs < 2 ^ 64
    → s.active_reqs + 1 < 2 ^ 32
    → IsBalanced others s
    → check_asserts bs s ≡ true
    → queue_asserts s ≡ true
    → check_before_write w send_handle s ≡ none
    → (ltb bufsml_size (length bs) && not memory) ≡ false
    → (t : Stream) × (left : List Answer) × (write2 fuel w memory answers self bs send_handle cb s
        ≡ some (ok t left))
      × IsBalanced others t
      × InOrder (enqueue self bs send_handle cb s) t
      × (flow (enqueue self bs send_handle cb s) ≡ flow s ++ bytes_of bs)
unfolding write2 if_valid
write2_lem fuel others w memory answers self bs send_handle cb s more enough room few b asserted
      free valid got =
    let r = write_checked fuel w memory answers self bs send_handle cb s in
    let (t, left, e, balanced, order) =
      write_checked-Queued fuel others w memory answers self bs send_handle cb s more enough room
        few b got in
    (
      t,
      left,
      ap (λ o. if_valid o s r) valid ∙ e,
      balanced,
      order,
      flow-enqueue self bs send_handle cb s,
    )
