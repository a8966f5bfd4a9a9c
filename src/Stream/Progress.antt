-- ===== src/Stream/Progress.antt =====
-- uv__write (libuv/src/unix/stream.c) returns: of a stream that does not block after one call of the system, of one that
-- blocks at the latest with an error.
use libuv_analyse.Base.{
  ℕ, zero, suc, ◌≤◌, ◌<◌, ◌≡◌, sym, subst, arith, Bool, none, refl, true, false, ◌&&◌, not, by_if,
  List, [], ◌∷◌, Option, some, length, take, ◌==◌,
}
use libuv_analyse.Heap.{Ptr, null}
use libuv_analyse.Stream.{
  Buf, Req, Stream, Answer, accepts, interrupted, would_block, refuses, World, bytes_of,
}
use libuv_analyse.Stream.Output.{
  advance, is_done, Tried, wrote, again, fails, call_system, try_write, Turn, returns,
  wait_for_room, written, after_try, bufs_of, tried, write_turn, go_on, write, goes_round, Written,
}
use libuv_analyse.Stream.Bytes.{InOrder, OfWritten, write-OfWritten}
use libuv_analyse.Stream.Prompt.{IsAnswered, write_returns}

-- One of the answers is an error that ends uv__write.
unfoldable pub Refuses : List Answer → Type 0
Refuses [] = ⊥
Refuses (interrupted ∷ left) = Refuses left
Refuses (accepts k ∷ left) = Refuses left
Refuses (would_block ∷ left) = Refuses left
Refuses (refuses e ∷ left) = Unit

-- Fewer than `n` answers are left, with an error among them.
record IsLeft (n : ℕ) (left : List Answer) : Type 0 where
  refused : Refuses left
  fewer : length left < n

Trying : ℕ → Option (Tried × List Answer) → Type 0
Trying n none = ⊥
Trying n (some (wrote k, left)) = IsLeft n left
Trying n (some (again, left)) = IsLeft n left
Trying n (some (fails e, left)) = Unit

call_system-Trying :
    (n offered : ℕ) (answers : List Answer)
    → Refuses answers
    → length answers ≤ n
    → Trying n (call_system offered answers)
unfolding Refuses call_system Trying
call_system-Trying n offered [] h few = absurd h
call_system-Trying n offered (interrupted ∷ left) h few =
    call_system-Trying n offered left h (omega arith)
call_system-Trying n offered (accepts k ∷ left) h few = record { refused = h; fewer = omega arith }
call_system-Trying n offered (would_block ∷ left) h few = record {
  refused = h;
  fewer = omega arith;
}
call_system-Trying n offered (refuses e ∷ left) h few = tt

try_write-Trying :
    (w : World) (bs : List Buf) (send_handle : Ptr) (answers : List Answer)
    → Refuses answers
    → Trying (length answers) (try_write w bs send_handle answers)
unfolding try_write Trying
try_write-Trying w bs send_handle answers h =
    by_if (Trying (length answers)) (not (send_handle == null) && (w.peer send_handle).closing)
      (λ _. tt)
      (λ _.
        call_system-Trying (length answers) (length (bytes_of (take w.iovmax bs))) answers h
          (omega arith))

-- A round leaves the function, or goes round with fewer answers.
Going : ℕ → Option (Turn × List Answer) → Type 0
Going n none = ⊥
Going n (some (returns s, left)) = Unit
Going n (some (goes_round s, left)) = (s.blocking_writes ≡ true) × IsLeft n left

busy_goes_round : (s : Stream) → s.blocking_writes ≡ true → wait_for_room s ≡ goes_round s
unfolding wait_for_room
busy_goes_round s busy = rw (wait_for_room, busy) refl

wait_for_room-Going :
    (n : ℕ) (s : Stream) (left : List Answer)
    → s.blocking_writes ≡ true
    → IsLeft n left
    → Going n (some (wait_for_room s, left))
unfolding wait_for_room Going
wait_for_room-Going n s left busy few =
    subst (λ t. Going n (some (t, left))) (sym (busy_goes_round s busy)) (busy, few)

tried-Going :
    (n : ℕ) (r : Req) (rest : List Req) (s : Stream) (o : Option (Tried × List Answer))
    → s.blocking_writes ≡ true
    → Trying n o
    → Going n (tried r rest s o)
unfolding tried after_try written Trying Going
tried-Going n r rest s none busy h = h
tried-Going n r rest s (some (wrote k, left)) busy h =
    by_if (λ t. Going n (some (t, left))) (is_done (advance k (bufs_of r))) (λ _. tt)
      (λ _. wait_for_room-Going n _ left busy h)
tried-Going n r rest s (some (again, left)) busy h = wait_for_room-Going n s left busy h
tried-Going n r rest s (some (fails e, left)) busy h = tt

write_turn-Going :
    (w : World) (answers : List Answer) (q : List Req) (s : Stream)
    → s.blocking_writes ≡ true
    → Refuses answers
    → Going (length answers) (write_turn w answers q s)
unfolding write_turn Going
write_turn-Going w answers [] s busy h = tt
write_turn-Going w answers (r ∷ rest) s busy h =
    tried-Going (length answers) r rest s _ busy
      (try_write-Trying w (bufs_of r) r.send_handle answers h)

abbrev Ended : Written → Type 0
Ended o = (t : Stream) × (left : List Answer) × (o ≡ some (t, left))

go_on-Ended :
    (n : ℕ) (o : Option (Turn × List Answer)) (f : List Answer → Stream → Written)
    → Going n o
    → ((left : List Answer) (u : Stream)
        → u.blocking_writes ≡ true
        → IsLeft n left
        → Ended (f left u))
    → Ended (go_on o f)
unfolding go_on Going
go_on-Ended n none f h rounds = absurd h
go_on-Ended n (some (returns s, left)) f h rounds = (s, left, refl)
go_on-Ended n (some (goes_round s, left)) f (busy, few) rounds = rounds left s busy few

write-Ended :
    (fuel : ℕ) (w : World) (answers : List Answer) (s : Stream)
    → length answers < fuel
    → s.blocking_writes ≡ true
    → Refuses answers
    → Ended (write fuel w answers s)
unfolding write
write-Ended zero w answers s enough busy h = absurd (omega arith)
write-Ended (suc fuel) w answers s enough busy h =
    go_on-Ended (length answers) (write_turn w answers s.write_queue s) _
      (write_turn-Going w answers s.write_queue s busy h)
      (λ left u still few. write-Ended fuel w left u (omega (arith, few.fewer)) still few.refused)

-- The answers are enough for uv__write to return: one that is no interruption, or for a stream that blocks an error.
unfoldable pub IsEnough : Bool → List Answer → Type 0
unfolding IsAnswered Refuses
IsEnough false answers = IsAnswered answers
IsEnough true answers = Refuses answers

enough-Ended :
    (b : Bool) (fuel : ℕ) (w : World) (answers : List Answer) (s : Stream)
    → s.blocking_writes ≡ b
    → length answers < fuel
    → IsEnough b answers
    → Ended (write fuel w answers s)
unfolding IsEnough
enough-Ended b zero w answers s e more h = absurd (omega arith)
enough-Ended false (suc fuel) w answers s e more h = write_returns fuel w answers s e h
enough-Ended true (suc fuel) w answers s e more h = write-Ended (suc fuel) w answers s more e h

-- uv__write returns, in at most as many rounds as there are answers and one more: where the stream does not block as
-- soon as the system answers without an interruption, and where it blocks at the latest with the first
-- error. It hands the bytes of the requests over in the order of the requests, whatever the system answers: what has
-- been sent and then what waits is as before, or the first request has failed, a front part of it is
-- sent, and the others wait as before.
pub write-InOrder :
    (fuel : ℕ) (w : World) (answers : List Answer) (s : Stream)
    → length answers < fuel
    → IsEnough s.blocking_writes answers
    → (t : Stream) × (left : List Answer) × (write fuel w answers s ≡ some (t, left)) × InOrder s t
unfolding OfWritten
write-InOrder fuel w answers s more h =
    let (t, left, e) = enough-Ended s.blocking_writes fuel w answers s refl more h in
    (t, left, e, subst (OfWritten s) e (write-OfWritten fuel w answers s))
