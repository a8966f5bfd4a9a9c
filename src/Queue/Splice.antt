-- ===== src/Queue/Splice.antt =====
-- QUEUE_SPLIT and QUEUE_MOVE of libuv/src/queue.h on rings.
use libuv_analyse.Base.{
  ◌≡◌, ◌≢◌, inl, inr, refl, arith, List, [], ◌∷◌, ◌++◌, ◌==◌, if◌then◌else◌, true, false,
}
use libuv_analyse.Queue.{Ptr, Store, queue_init, queue_split, queue_move}
use libuv_analyse.Queue.Ring.{
  Chain, NotIn, In, Distinct, Ring, NotIn-In, NotIn-split, Distinct-split, Distinct-apart,
  Chain-split, Chain-retarget, prev-In,
}
use libuv_analyse.Queue.Insert.{queue_init-Ring}

module _ (s : Store) (h q n : Ptr) (n_h : n ≢ h) (n_q : n ≢ q) (n_prev : n ≢ s.prev q)
    (h_q : h ≢ q) where
  split-next :
      (p : Ptr)
      → (queue_split h q n s).next p
        ≡ (if p == s.prev q then h else if p == n then q else if p == s.prev h then n else s.next p)
  unfolding queue_split
  split-next p = ground arith

  split-prev :
      (p : Ptr)
      → (queue_split h q n s).prev p
        ≡ (if p == q then n else if p == h then s.prev q else if p == n then s.prev h else s.prev p)
  unfolding queue_split
  split-prev p = ground arith

-- QUEUE_SPLIT leaves the elements before `q` in the queue of `h`, and makes `n` the head of a queue of
-- `q` and those behind it.
pub queue_split-Ring :
    (s : Store) (h q n : Ptr) (xs ys : List Ptr)
    → Ring s h (xs ++ q ∷ ys)
    → NotIn n (h ∷ (xs ++ q ∷ ys))
    → Ring (queue_split h q n s) h xs × Ring (queue_split h q n s) n (q ∷ ys)
queue_split-Ring s h q n xs ys r new = (
  record {
    chain =
        Chain-retarget s t xs h q h front left (ground (arith, next (s.prev q)))
          (ground (arith, prev h, h_q))
          (λ p i ne. ground (
            arith,
            next p,
            NotIn-In n p (h ∷ xs) n_left i,
            Distinct-apart p (s.prev h) (h ∷ xs) (q ∷ ys) r.distinct i last,
          ))
          (λ p i. ground (
            arith,
            prev p,
            NotIn-In n p (h ∷ xs) n_left (inr i),
            NotIn-In h p xs left.0 i,
            Distinct-apart p q (h ∷ xs) (q ∷ ys) r.distinct (inr i) (inl refl),
          ));
    distinct = left;
  },
  record {
    chain = (
      ground (arith, next n, n_prev),
      ground (arith, prev q),
      Chain-retarget s t ys q h n back right
          (ground (
            arith,
            next (s.prev h),
            Distinct-apart (s.prev q) (s.prev h) (h ∷ xs) (q ∷ ys) r.distinct before last,
            NotIn-In n (s.prev h) (q ∷ ys) n_right last,
          ))
          (ground (arith, prev n, n_left.0, n_right.0))
          (λ p i ne. ground (
            arith,
            next p,
            NotIn-In n p (q ∷ ys) n_right i,
            Distinct-apart (s.prev q) p (h ∷ xs) (q ∷ ys) r.distinct before i,
          ))
          (λ p i. ground (
            arith,
            prev p,
            NotIn-In n p (q ∷ ys) n_right (inr i),
            NotIn-In q p ys right.0 i,
            Distinct-apart h p (h ∷ xs) (q ∷ ys) r.distinct (inl refl) (inr i),
          )),
    );
    distinct = (n_right, right);
  },
)
  where
    t : Store
    t = queue_split h q n s

    front : Chain s h xs q
    front = (Chain-split s xs ys h q h r.chain).0

    back : Chain s q ys h
    back = (Chain-split s xs ys h q h r.chain).1

    left : Distinct (h ∷ xs)
    left = (Distinct-split (h ∷ xs) (q ∷ ys) r.distinct).0

    right : Distinct (q ∷ ys)
    right = (Distinct-split (h ∷ xs) (q ∷ ys) r.distinct).1

    n_left : NotIn n (h ∷ xs)
    n_left = (NotIn-split n (h ∷ xs) (q ∷ ys) new).0

    n_right : NotIn n (q ∷ ys)
    n_right = (NotIn-split n (h ∷ xs) (q ∷ ys) new).1

    before : In (s.prev q) (h ∷ xs)
    before = prev-In s xs h q front

    last : In (s.prev h) (q ∷ ys)
    last = prev-In s ys q h back

    n_prev : n ≢ s.prev q
    n_prev = NotIn-In n (s.prev q) (h ∷ xs) n_left before

    h_q : h ≢ q
    h_q = Distinct-apart h q (h ∷ xs) (q ∷ ys) r.distinct (inl refl) (inl refl)

    next :
        (p : Ptr)
        → t.next p ≡ (
            if p == s.prev q
            then h
            else if p == n
            then q
            else if p == s.prev h
            then n
            else s.next p)
    next = split-next s h q n n_left.0 n_right.0 n_prev h_q

    prev :
        (p : Ptr)
        → t.prev p ≡ (
            if p == q
            then n
            else if p == h
            then s.prev q
            else if p == n
            then s.prev h
            else s.prev p)
    prev = split-prev s h q n n_left.0 n_right.0 n_prev h_q

-- QUEUE_MOVE hands all elements over to a new head, in order, and leaves the queue empty.
pub queue_move-Ring :
    (s : Store) (h n : Ptr) (xs : List Ptr)
    → Ring s h xs
    → NotIn n (h ∷ xs)
    → Ring (queue_move h n s) h [] × Ring (queue_move h n s) n xs
unfolding queue_move
queue_move-Ring s h n [] r new = rw stays (kept, queue_init-Ring s n)
  where
    stays : (h == s.next h) ≡ true
    stays = ground (arith, r.chain)

    kept : Ring (queue_init n s) h []
    kept = record { chain = ground (arith, r.chain, new); distinct = r.distinct }
queue_move-Ring s h n (x ∷ xs) r new = rw (goes, r.chain.0) (queue_split-Ring s h x n [] xs r new)
  where
    goes : (h == s.next h) ≡ false
    goes = ground (arith, r.chain, r.distinct)
