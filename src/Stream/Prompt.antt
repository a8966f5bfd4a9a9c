-- ===== src/Stream/Prompt.antt =====
-- uv__write (libuv/src/unix/stream.c) of a stream that does not block: one call of the system.
use Prim.Native.Nat.{min}
use libuv_analyse.Base.{
  ℕ, suc, ◌≡◌, refl, ap, ◌∙◌, true, false, ◌&&◌, not, by_if, List, [], ◌∷◌, Option, some, length,
  take, ◌==◌,
}
use libuv_analyse.Heap.{Ptr, null}
use libuv_analyse.Stream.{
  ebadf, system, Buf, Req, Stream, Answer, accepts, interrupted, would_block, refuses, World,
  bytes_of,
}
use libuv_analyse.Stream.Output.{
  advance, is_done, Tried, wrote, again, fails, call_system, try_write, Turn, returns,
  wait_for_room, written, after_try, bufs_of, tried, write_turn, go_on, write,
}

-- One of the answers is no interruption.
unfoldable pub IsAnswered : List Answer → Type 0
IsAnswered [] = ⊥
IsAnswered (interrupted ∷ left) = IsAnswered left
IsAnswered (accepts k ∷ left) = Unit
IsAnswered (would_block ∷ left) = Unit
IsAnswered (refuses e ∷ left) = Unit

Tries : Option (Tried × List Answer) → Type 0
Tries o = (t : Tried) × (left : List Answer) × (o ≡ some (t, left))

call_system-Tries :
    (offered : ℕ) (answers : List Answer) → IsAnswered answers → Tries (call_system offered answers)
unfolding IsAnswered call_system Tries
call_system-Tries offered [] h = absurd h
call_system-Tries offered (interrupted ∷ left) h = call_system-Tries offered left h
call_system-Tries offered (accepts k ∷ left) h = (wrote (min k offered), left, refl)
call_system-Tries offered (would_block ∷ left) h = (again, left, refl)
call_system-Tries offered (refuses e ∷ left) h = (fails (system e), left, refl)

try_write-Tries :
    (w : World) (bs : List Buf) (send_handle : Ptr) (answers : List Answer)
    → IsAnswered answers
    → Tries (try_write w bs send_handle answers)
unfolding try_write Tries
try_write-Tries w bs send_handle answers h =
    by_if Tries (not (send_handle == null) && (w.peer send_handle).closing)
      (λ _. (fails ebadf, answers, refl))
      (λ _. call_system-Tries (length (bytes_of (take w.iovmax bs))) answers h)

Returns : Turn → Type 0
Returns t = (s : Stream) × (t ≡ returns s)

wait_for_room-Returns : (s : Stream) → s.blocking_writes ≡ false → Returns (wait_for_room s)
unfolding wait_for_room Returns
wait_for_room-Returns s free = (record s { pollout = true }, rw (wait_for_room, free) refl)

after_try-Returns :
    (t : Tried) (r : Req) (bs : List Buf) (rest : List Req) (s : Stream)
    → s.blocking_writes ≡ false
    → Returns (after_try t r bs rest s)
unfolding after_try written Returns
after_try-Returns (wrote n) r bs rest s free =
    by_if Returns (is_done (advance n bs)) (λ _. (_, refl)) (λ _. wait_for_room-Returns _ free)
after_try-Returns again r bs rest s free = wait_for_room-Returns s free
after_try-Returns (fails e) r bs rest s free = (_, refl)

write_turn-Returns :
    (w : World) (answers : List Answer) (q : List Req) (s : Stream)
    → s.blocking_writes ≡ false
    → IsAnswered answers
    → (t : Stream) × (left : List Answer) × (write_turn w answers q s ≡ some (returns t, left))
unfolding write_turn tried Tries Returns
write_turn-Returns w answers [] s free h = (s, answers, refl)
write_turn-Returns w answers (r ∷ rest) s free h =
    let (x, left, e) = try_write-Tries w (bufs_of r) r.send_handle answers h in
    let (t, f) = after_try-Returns x r (bufs_of r) rest s free in
    (t, left, ap (tried r rest s) e ∙ ap (λ u. some (u, left)) f)

pub write_returns :
    (fuel : ℕ) (w : World) (answers : List Answer) (s : Stream)
    → s.blocking_writes ≡ false
    → IsAnswered answers
    → (t : Stream) × (left : List Answer) × (write (suc fuel) w answers s ≡ some (t, left))
unfolding write go_on
write_returns fuel w answers s free h =
    let (t, left, e) = write_turn-Returns w answers s.write_queue s free h in
    (t, left, ap (λ o. go_on o (λ rest u. write fuel w rest u)) e)
