-- ===== src/Stream/Outcome.antt =====
-- When uv_write2 (libuv/src/unix/stream.c) succeeds, why it fails, and what a failure leaves.
use libuv_analyse.Base.{
  ℕ, ◌+◌, ◌^◌, ◌<◌, ◌≤◌, ◌≡◌, ◌≢◌, ◌⊎◌, refl, false, true, ap, subst, ◌∙◌, inl, inr, Bool, ◌&&◌,
  ◌||◌, Option-cases, not, by_if, Bool-cases, List, Option, none, some, length, ltb, ◌==◌, arith,
}
use libuv_analyse.Loop.{req_register}
use libuv_analyse.Heap.{Ptr, null}
use libuv_analyse.Stream.{
  Errno, eagain, ebadf, epipe, einval, enomem, ecanceled, enotconn, einprogress, system, Buf,
  Stream, Answer, World,
}
use libuv_analyse.Stream.Output.{handle_fd}
use libuv_analyse.Stream.Calls.{
  check_asserts, queue_asserts, check_before_write, bufsml_size, is_some, is_pipe, Called, ok,
  error, write_checked, if_valid, write2,
}
use libuv_analyse.Stream.Sizes.{total}
use libuv_analyse.Stream.Balance.{IsBalanced}
use libuv_analyse.Stream.Progress.{IsEnough}
use libuv_analyse.Stream.Request.{write2_lem}

-- The stream is open and writable, and a handle to send is an open one and the stream a pipe for handles.
abbrev CanSend : World → Ptr → Stream → Type 0
CanSend w send_handle s =
    (is_some s.fd ≡ true)
    × (s.writable ≡ true)
    × ((send_handle ≡ null)
        ⊎ (is_pipe s.type ≡ true)
          × (s.ipc ≡ true)
          × (is_some (handle_fd (w.peer send_handle)) ≡ true))

-- The buffers fit the request, or there is memory for them.
abbrev HasRoom : Bool → List Buf → Type 0
HasRoom memory bs = (length bs ≤ bufsml_size) ⊎ (memory ≡ true)

-- The reason for each error.
unfoldable pub Reason : World → Bool → List Buf → Ptr → Stream → Errno → Type 0
Reason w memory bs send_handle s ebadf =
    (is_some s.fd ≡ false)
    ⊎ (s.writable ≡ true)
      × (is_pipe s.type ≡ true)
      × (s.ipc ≡ true)
      × (send_handle ≢ null)
      × (is_some (handle_fd (w.peer send_handle)) ≡ false)
Reason w memory bs send_handle s epipe = (is_some s.fd ≡ true) × (s.writable ≡ false)
Reason w memory bs send_handle s einval =
    (is_some s.fd ≡ true)
    × (s.writable ≡ true)
    × (send_handle ≢ null)
    × ((is_pipe s.type ≡ false) ⊎ (s.ipc ≡ false))
Reason w memory bs send_handle s enomem =
    CanSend w send_handle s × (bufsml_size < length bs) × (memory ≡ false)
Reason w memory bs send_handle s eagain = ⊥
Reason w memory bs send_handle s ecanceled = ⊥
Reason w memory bs send_handle s enotconn = ⊥
Reason w memory bs send_handle s einprogress = ⊥
Reason w memory bs send_handle s (system e) = ⊥

-- The requests that are registered and in no queue once the call has failed.
unfoldable pub leaked : Errno → ℕ
leaked enomem = 1
leaked eagain = 0
leaked ebadf = 0
leaked epipe = 0
leaked einval = 0
leaked ecanceled = 0
leaked enotconn = 0
leaked einprogress = 0
leaked (system e) = 0

-- The statement below, of what uv_write2 returns.
unfoldable pub Outcome : ℕ → World → Bool → List Buf → Ptr → Stream → Called → Type 0
Outcome others w memory bs send_handle s (ok t left) =
    CanSend w send_handle s × HasRoom memory bs × IsBalanced others t
Outcome others w memory bs send_handle s (error e t) =
    Reason w memory bs send_handle s e
    × IsBalanced (others + leaked e) t
    × (t ≡ record s { active_reqs = t.active_reqs })

got-HasRoom :
    (memory : Bool) (bs : List Buf)
    → (ltb bufsml_size (length bs) && not memory) ≡ false
    → HasRoom memory bs
got-HasRoom memory bs got = elim (Bool-cases memory) [
  | inl there ↦ inr there
  | inr none_there ↦ inl (ground (arith, got, none_there))
]

module _ (w : World) (memory : Bool) (bs : List Buf) (send_handle : Ptr) (s : Stream) where
  wrong-kind :
      (not (is_pipe s.type) || not s.ipc) ≡ true → (is_pipe s.type ≡ false) ⊎ (s.ipc ≡ false)
  wrong-kind wrong = elim (Bool-cases s.ipc) [
    | inr no_ipc ↦ inr no_ipc
    | inl ipc ↦ inl (ground (arith, wrong, ipc))
  ]

  -- What the checks find.
  Found : Option Errno → Type 0
  Found none = CanSend w send_handle s
  Found (some e) = Reason w memory bs send_handle s e × (leaked e ≡ 0)

  check-Found : Found (check_before_write w send_handle s)
  unfolding check_before_write Found Reason leaked
  check-Found =
      by_if Found (not (is_some s.fd)) (λ closed. (inl (ground (arith, closed)), refl))
        (λ open_fd.
          by_if Found (not s.writable)
            (λ shut. ((ground (arith, open_fd), ground (arith, shut)), refl))
            (λ writes.
              by_if Found (send_handle == null)
                (λ nothing.
                  (ground (arith, open_fd), ground (arith, writes), inl (ground (arith, nothing))))
                (λ given.
                  by_if Found (not (is_pipe s.type) || not s.ipc)
                    (λ wrong. (
                      (
                        ground (arith, open_fd),
                        ground (arith, writes),
                        λ no_handle. ground (arith, no_handle, given),
                        wrong-kind wrong,
                      ),
                      refl,
                    ))
                    (λ pipe.
                      by_if Found (not (is_some (handle_fd (w.peer send_handle))))
                        (λ dead. (
                          inr (
                            ground (arith, writes),
                            ground (arith, pipe),
                            ground (arith, pipe),
                            λ no_handle. ground (arith, no_handle, given),
                            ground (arith, dead),
                          ),
                          refl,
                        ))
                        (λ live. (
                          ground (arith, open_fd),
                          ground (arith, writes),
                          inr (ground (arith, pipe), ground (arith, pipe), ground (arith, live)),
                        ))))))

-- uv_write2, where no assertion fails, the answers of the system are enough for uv__write, the size of the queues and
-- the count of the requests are right, and neither the new size nor the new count overflows. The call returns, and
-- either with 0: then the stream is open and writable and the handle to send, if there is one, may be sent, there are
-- at most four buffers or there is memory, and the size and the count are right. Or with an error, which has its
-- reason (UV_EBADF: the stream has no descriptor; UV_EPIPE: it has one and is not writable; UV_EINVAL: it may be
-- written, but there is a handle to send and it is no pipe for handles; UV_EBADF again: all this is in order, but the
-- handle has no descriptor; UV_ENOMEM: the stream may be written and the handle sent, but there is no memory for the
-- more than four buffers), and nothing of the stream changes but the count of the requests. That count is right still
-- for each error but UV_ENOMEM, for which one request more is counted than there are.
pub write2-Outcome :
    (fuel others : ℕ) (w : World) (memory : Bool) (answers : List Answer) (self : Ptr)
    (bs : List Buf) (send_handle cb : Ptr) (s : Stream)
    → length answers < fuel
    → IsEnough s.blocking_writes answers
    → s.write_queue_size + total bs < 2 ^ 64
    → s.active_reqs + 1 < 2 ^ 32
    → IsBalanced others s
    → check_asserts bs s ≡ true
    → queue_asserts s ≡ true
    → (o : Called) × (write2 fuel w memory answers self bs send_handle cb s ≡ some o)
      × Outcome others w memory bs send_handle s o
unfolding write2 if_valid write_checked Outcome Reason Found leaked
write2-Outcome fuel others w memory answers self bs send_handle cb s more enough room few b asserted
      free =
    let r = write_checked fuel w memory answers self bs send_handle cb s in
    let found = check-Found w memory bs send_handle s in
    elim (Option-cases (check_before_write w send_handle s)) [
      | inr (e, refused) ↦
          let (reason, all_counted) = subst (Found w memory bs send_handle s) refused found in
          (
            error e s,
            ap (λ o. if_valid o s r) refused,
            (
              reason,
              record {
                size = b.size;
                word = b.word;
                registered = omega (arith, all_counted, b.registered);
              },
              refl,
            ),
          )
      | inl valid ↦ elim (Bool-cases (ltb bufsml_size (length bs) && not memory)) [
        | inl full ↦ (
          error enomem (record s { active_reqs = req_register s.active_reqs }),
          ap (λ o. if_valid o s r) valid ∙ ground (arith, full),
          (
            (
              subst (Found w memory bs send_handle s) valid found,
              ground (arith, full),
              ground (arith, full),
            ),
            record { size = b.size; word = b.word; registered = omega (arith, few, b.registered) },
            refl,
          ),
        )
        | inr got ↦
            let (t, left, e, balanced, order, bytes) =
              write2_lem fuel others w memory answers self bs send_handle cb s more enough room few
                b asserted free valid got in
            (
              ok t left,
              e,
              (
                subst (Found w memory bs send_handle s) valid found,
                got-HasRoom memory bs got,
                balanced,
              ),
            )
      ]
    ]
