-- ===== src/Stream/Bytes.antt =====
-- The order of the bytes that uv__write (libuv/src/unix/stream.c) hands to the system.
use mathlib.Core.Bool.{false≢true}
use libuv_analyse.Base.{
  ℕ, zero, suc, ◌-◌, ◌≤◌, ◌≡◌, ◌⊎◌, refl, sym, ap, ◌∙◌, inl, inr, Bool, true, by_if, List, [], ◌∷◌,
  ◌++◌, append_assoc, append-nil, Option, none, some, take, drop, take-append-drop,
}
use libuv_analyse.Heap.{null}
use libuv_analyse.Stream.{Buf, Req, Stream, Answer, World, bytes_of}
use libuv_analyse.Stream.Output.{
  advance, write_req_update, is_done, write_req_finish, Tried, wrote, again, fails, try_write, Turn,
  returns, goes_round, wait_for_room, written, fail_write, after_try, bufs_of, tried, write_turn,
  Written, go_on, write,
}
use libuv_analyse.Stream.Sizes.{total, bytes_of-advance}
use libuv_analyse.Stream.Turns.{Takes, try_write-Takes}

-- The bytes that wait, in the order of the requests.
unfoldable pub pending : List Req → List ℕ
pending [] = []
pending (r ∷ q) = bytes_of (bufs_of r) ++ pending q

-- What has been sent, and then what waits.
unfoldable pub flow : Stream → List ℕ
flow s = s.sent ++ pending s.write_queue

-- The first request has failed: some bytes of it are sent and the others are dropped.
pub record Drops (s t : Stream) : Type 0 where
  pub r : Req
  pub front : List ℕ
  pub back : List ℕ
  pub queue : s.write_queue ≡ r ∷ t.write_queue
  pub split : bytes_of (bufs_of r) ≡ front ++ back
  pub sent : t.sent ≡ s.sent ++ front

abbrev pub InOrder : Stream → Stream → Type 0
InOrder s t = (flow t ≡ flow s) ⊎ Drops s t

-- A part of the first request has been sent, and no more.
record Advances (s t : Stream) : Type 0 where
  r : Req
  r' : Req
  rest : List Req
  front : List ℕ
  from : s.write_queue ≡ r ∷ rest
  to : t.write_queue ≡ r' ∷ rest
  split : bytes_of (bufs_of r) ≡ front ++ bytes_of (bufs_of r')
  sent : t.sent ≡ s.sent ++ front

Advances-flow : (s t : Stream) → Advances s t → flow t ≡ flow s
unfolding flow pending
Advances-flow s t a = rw (a.from, a.to, a.sent, a.split) (simp append_assoc)

same_head : (r r' : Req) (q q' : List Req) → r ∷ q ≡ r' ∷ q' → (r ≡ r') × (q ≡ q')
same_head r r' q q' e = (cc, cc)

Advances-InOrder : (s u t : Stream) → Advances s u → InOrder u t → InOrder s t
Advances-InOrder s u t a (inl e) = inl (e ∙ Advances-flow s u a)
Advances-InOrder s u t a (inr d) =
    let (head, tail) = same_head d.r a.r' t.write_queue a.rest (sym d.queue ∙ a.to) in
    let split' = ap (λ r. bytes_of (bufs_of r)) (sym head) ∙ d.split in
    inr (record {
      r = a.r;
      front = a.front ++ d.front;
      back = d.back;
      queue = a.from ∙ ap (λ q. a.r ∷ q) (sym tail);
      split = a.split ∙ ap (λ b. a.front ++ b) split' ∙ sym (append_assoc a.front d.front d.back);
      sent = d.sent ∙ ap (λ b. b ++ d.front) a.sent ∙ append_assoc s.sent a.front d.front;
    })

OfTurn : Stream → Turn → Type 0
OfTurn s (returns t) = InOrder s t
OfTurn s (goes_round t) = Advances s t

bytes_of-is_done : (bs : List Buf) → is_done bs ≡ true → bytes_of bs ≡ []
unfolding bytes_of
bytes_of-is_done [] done = refl
bytes_of-is_done (b ∷ bs) done = absurd (false≢true done)

module _ (s : Stream) (r : Req) (rest : List Req) (queue : s.write_queue ≡ r ∷ rest) where
  -- `left` are the buffers behind the first `n` bytes.
  part_sent :
      (n : ℕ) (left : List Buf) (size' : ℕ) (out : Bool)
      → bytes_of left ≡ drop n (bytes_of (bufs_of r))
      → Advances s (record s {
        sent = s.sent ++ take n (bytes_of (bufs_of r));
        write_queue = record r { bufs = some left; send_handle = null } ∷ rest;
        write_queue_size = size';
        pollout = out;
      })
  part_sent n left size' out behind = record {
    r = r;
    r' = record r { bufs = some left; send_handle = null };
    rest = rest;
    front = take n (bytes_of (bufs_of r));
    from = queue;
    to = refl;
    split =
        sym (take-append-drop n (bytes_of (bufs_of r)))
        ∙ ap (λ b. take n (bytes_of (bufs_of r)) ++ b) (sym behind);
    sent = refl;
  }

  all_sent :
      (n : ℕ)
      → drop n (bytes_of (bufs_of r)) ≡ []
      → (s.sent ++ take n (bytes_of (bufs_of r))) ++ pending rest ≡ flow s
  unfolding flow pending
  all_sent n nothing =
      let bytes = bytes_of (bufs_of r) in
      let whole : take n bytes ≡ bytes =
        sym (append-nil (take n bytes))
        ∙ ap (λ b. take n bytes ++ b) (sym nothing)
        ∙ take-append-drop n bytes in
      rw (whole, queue) (append_assoc s.sent bytes (pending rest))

  written-OfTurn : (n : ℕ) → n ≤ total (bufs_of r) → OfTurn s (written n r (bufs_of r) rest s)
  unfolding written wait_for_room write_req_update write_req_finish OfTurn flow
  written-OfTurn n few =
      let left = advance n (bufs_of r) in
      let behind = bytes_of-advance n (bufs_of r) few in
      let size' : ℕ = s.write_queue_size - n in
      by_if (OfTurn s) (is_done left)
        (λ done. inl (all_sent n (sym behind ∙ bytes_of-is_done left done)))
        (λ _.
          by_if (OfTurn s) s.blocking_writes (λ _. part_sent n left size' s.pollout behind)
            (λ _. inl (Advances-flow s _ (part_sent n left size' true behind))))

  nothing_sent : Advances s s
  nothing_sent = record {
    r = r;
    r' = r;
    rest = rest;
    front = [];
    from = queue;
    to = queue;
    split = refl;
    sent = sym (append-nil s.sent);
  }

  wait_for_room-OfTurn : OfTurn s (wait_for_room s)
  unfolding wait_for_room OfTurn flow
  wait_for_room-OfTurn = by_if (OfTurn s) s.blocking_writes (λ _. nothing_sent) (λ _. inl refl)

  after_try-OfTurn :
      (t : Tried)
      → ((n : ℕ) → t ≡ wrote n → n ≤ total (bufs_of r))
      → OfTurn s (after_try t r (bufs_of r) rest s)
  unfolding after_try fail_write write_req_finish OfTurn
  after_try-OfTurn (wrote n) few = written-OfTurn n (few n refl)
  after_try-OfTurn again few = wait_for_room-OfTurn
  after_try-OfTurn (fails e) few = inr (record {
    r = r;
    front = [];
    back = bytes_of (bufs_of r);
    queue = queue;
    split = refl;
    sent = sym (append-nil s.sent);
  })

OfTried : Stream → Option (Turn × List Answer) → Type 0
OfTried s none = Unit
OfTried s (some (t, left)) = OfTurn s t

tried-OfTried :
    (s : Stream) (r : Req) (rest : List Req)
    → s.write_queue ≡ r ∷ rest
    → (o : Option (Tried × List Answer)) → Takes (total (bufs_of r)) o
    → OfTried s (tried r rest s o)
unfolding tried Takes OfTried
tried-OfTried s r rest queue none takes = tt
tried-OfTried s r rest queue (some (t, left)) takes = after_try-OfTurn s r rest queue t takes

write_turn-OfTried :
    (w : World) (answers : List Answer) (q : List Req) (s : Stream)
    → s.write_queue ≡ q
    → OfTried s (write_turn w answers q s)
unfolding write_turn OfTried OfTurn
write_turn-OfTried w answers [] s queue = inl refl
write_turn-OfTried w answers (r ∷ rest) s queue =
    tried-OfTried s r rest queue (try_write w (bufs_of r) r.send_handle answers)
      (try_write-Takes w (bufs_of r) r.send_handle answers)

unfoldable pub OfWritten : Stream → Written → Type 0
OfWritten s none = Unit
OfWritten s (some (t, left)) = InOrder s t

further : (s u : Stream) (o : Written) → Advances s u → OfWritten u o → OfWritten s o
unfolding OfWritten
further s u none a order = tt
further s u (some (t, left)) a order = Advances-InOrder s u t a order

go_on-OfWritten :
    (s : Stream) (o : Option (Turn × List Answer)) (f : List Answer → Stream → Written)
    → OfTried s o
    → ((left : List Answer) (u : Stream) → OfWritten u (f left u))
    → OfWritten s (go_on o f)
unfolding go_on OfTried OfTurn OfWritten
go_on-OfWritten s none f turn rounds = tt
go_on-OfWritten s (some (returns t, left)) f turn rounds = turn
go_on-OfWritten s (some (goes_round u, left)) f turn rounds =
    further s u (f left u) turn (rounds left u)

pub write-OfWritten :
    (fuel : ℕ) (w : World) (answers : List Answer) (s : Stream)
    → OfWritten s (write fuel w answers s)
unfolding write OfWritten
write-OfWritten zero w answers s = tt
write-OfWritten (suc fuel) w answers s =
    go_on-OfWritten s (write_turn w answers s.write_queue s) _
      (write_turn-OfTried w answers s.write_queue s refl) (λ left u. write-OfWritten fuel w left u)
