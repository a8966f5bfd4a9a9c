-- ===== src/Stream/Turns.antt =====
-- uv__write (libuv/src/unix/stream.c) keeps the size of the queues.
use libuv_analyse.Base.{
  ℕ, zero, suc, ◌≤◌, ◌≡◌, refl, subst, by_if, List, [], ◌∷◌, Option, none, some, length, take, ◌==◌,
  ◌&&◌, not, arith,
}
use libuv_analyse.Heap.{Ptr, null}
use libuv_analyse.Stream.{
  Buf, Req, Stream, Answer, accepts, interrupted, would_block, refuses, World, bytes_of,
}
use libuv_analyse.Stream.Output.{
  stream_of, Tried, wrote, call_system, try_write, Turn, returns, goes_round, bufs_of, tried,
  write_turn, Written, go_on, write,
}
use libuv_analyse.Stream.Sizes.{total, length-bytes_of-take}
use libuv_analyse.Stream.Balance.{IsBalanced, after_try-IsBalanced}

-- The system takes no more than it is offered.
unfoldable pub Takes : ℕ → Option (Tried × List Answer) → Type 0
Takes offered none = Unit
Takes offered (some (t, left)) = (n : ℕ) → t ≡ wrote n → n ≤ offered

call_system-Takes :
    (offered : ℕ) (answers : List Answer) → Takes offered (call_system offered answers)
unfolding call_system Takes
call_system-Takes offered [] = tt
call_system-Takes offered (accepts k ∷ left) = λ n e. ground (arith, e)
call_system-Takes offered (interrupted ∷ left) = call_system-Takes offered left
call_system-Takes offered (would_block ∷ left) = λ n e. cc
call_system-Takes offered (refuses x ∷ left) = λ n e. cc

wider : (few many : ℕ) (o : Option (Tried × List Answer)) → few ≤ many → Takes few o → Takes many o
unfolding Takes
wider few many none le t = tt
wider few many (some (x, left)) le t = λ n e. omega (arith, t n e, le)

pub try_write-Takes :
    (w : World) (bs : List Buf) (send_handle : Ptr) (answers : List Answer)
    → Takes (total bs) (try_write w bs send_handle answers)
unfolding try_write Takes
try_write-Takes w bs send_handle answers =
    let offered = length (bytes_of (take w.iovmax bs)) in
    let fits = length-bytes_of-take w.iovmax bs in
    by_if (Takes (total bs)) (not (send_handle == null) && (w.peer send_handle).closing)
      (λ _ n e. cc)
      (λ _.
        wider offered (total bs) (call_system offered answers) fits
          (call_system-Takes offered answers))

IsBalancedTurn : ℕ → Option (Turn × List Answer) → Type 0
IsBalancedTurn others none = Unit
IsBalancedTurn others (some (t, left)) = IsBalanced others (stream_of t)

tried-IsBalanced :
    {others : ℕ} {s : Stream} (b : IsBalanced others s) (r : Req) (rest : List Req)
    → s.write_queue ≡ r ∷ rest
    → (o : Option (Tried × List Answer)) → Takes (total (bufs_of r)) o
    → IsBalancedTurn others (tried r rest s o)
unfolding tried Takes IsBalancedTurn
tried-IsBalanced b r rest queue none takes = tt
tried-IsBalanced b r rest queue (some (t, left)) takes = after_try-IsBalanced b r rest queue t takes

write_turn-IsBalanced :
    {others : ℕ} {s : Stream} (b : IsBalanced others s) (w : World) (answers : List Answer)
    (q : List Req)
    → s.write_queue ≡ q
    → IsBalancedTurn others (write_turn w answers q s)
unfolding write_turn IsBalancedTurn
write_turn-IsBalanced b w answers [] queue = b
write_turn-IsBalanced b w answers (r ∷ rest) queue =
    tried-IsBalanced b r rest queue (try_write w (bufs_of r) r.send_handle answers)
      (try_write-Takes w (bufs_of r) r.send_handle answers)

unfoldable pub IsBalancedEnd : ℕ → Written → Type 0
IsBalancedEnd others none = Unit
IsBalancedEnd others (some (t, left)) = IsBalanced others t

go_on-IsBalanced :
    (others : ℕ) (o : Option (Turn × List Answer)) (f : List Answer → Stream → Written)
    → IsBalancedTurn others o
    → ((left : List Answer) (t : Stream) → IsBalanced others t → IsBalancedEnd others (f left t))
    → IsBalancedEnd others (go_on o f)
unfolding go_on IsBalancedTurn IsBalancedEnd
go_on-IsBalanced others none f b keeps = tt
go_on-IsBalanced others (some (returns s, left)) f b keeps = b
go_on-IsBalanced others (some (goes_round s, left)) f b keeps = keeps left s b

pub write_end-IsBalanced :
    (fuel others : ℕ) (w : World) (answers : List Answer) (s : Stream)
    → IsBalanced others s
    → IsBalancedEnd others (write fuel w answers s)
unfolding write IsBalancedEnd
write_end-IsBalanced zero others w answers s b = tt
write_end-IsBalanced (suc fuel) others w answers s b =
    go_on-IsBalanced others (write_turn w answers s.write_queue s) _
      (write_turn-IsBalanced b w answers s.write_queue refl)
      (λ left t c. write_end-IsBalanced fuel others w left t c)

pub write-IsBalanced :
    (fuel others : ℕ) (w : World) (answers left : List Answer) (s t : Stream)
    → IsBalanced others s
    → write fuel w answers s ≡ some (t, left)
    → IsBalanced others t
unfolding IsBalancedEnd
write-IsBalanced fuel others w answers left s t b e =
    subst (IsBalancedEnd others) e (write_end-IsBalanced fuel others w answers s b)
