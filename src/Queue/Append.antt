-- ===== src/Queue/Append.antt =====
-- QUEUE_ADD of libuv/src/queue.h on rings.
use libuv_analyse.Base.{
  ◌≡◌, ◌≢◌, inl, inr, refl, arith, List, [], ◌∷◌, ◌++◌, append-nil, ◌==◌, if◌then◌else◌,
}
use libuv_analyse.Queue.{Ptr, Store, queue_add}
use libuv_analyse.Queue.Ring.{
  NotIn, In, Ring, NotIn-In, Distinct-join, Chain-append, Chain-retarget, prev-In,
}

-- The pointers after QUEUE_ADD of a queue that has a first element.
module _ (s : Store) (h n : Ptr) (first : n ≢ s.next n) (last : n ≢ s.prev h) where
  add-next :
      (p : Ptr)
      → (queue_add h n s).next p
        ≡ (if p == s.prev n then h else if p == s.prev h then s.next n else s.next p)
  unfolding queue_add
  add-next p = ground (arith, first, last)

  add-prev :
      (p : Ptr)
      → (queue_add h n s).prev p
        ≡ (if p == h then s.prev n else if p == s.next n then s.prev h else s.prev p)
  unfolding queue_add
  add-prev p = ground (arith, first, last)

-- An empty queue adds nothing: all pointers of the ring are as before.
module _ (s : Store) (h n : Ptr) (only : s.next n ≡ n) (back : s.prev n ≡ n) (other : n ≢ h)
    (last : n ≢ s.prev h) where
  empty-next : (p : Ptr) → (queue_add h n s).next p ≡ (if p == s.prev h then h else s.next p)
  unfolding queue_add
  empty-next p = ground (arith, only, back, other, last)

  empty-prev : (p : Ptr) → (queue_add h n s).prev p ≡ (if p == n then s.prev h else s.prev p)
  unfolding queue_add
  empty-prev p = ground (arith, only, back, other, last)

-- QUEUE_ADD puts the elements of the queue of `n`, which may be empty, behind those of the queue of `h`, in order. The
-- two queues have no address in common.
pub queue_add-Ring :
    (s : Store) (h n : Ptr) (xs ys : List Ptr)
    → Ring s h xs
    → Ring s n ys
    → ((a : Ptr) → In a (h ∷ xs) → NotIn a (n ∷ ys))
    → Ring (queue_add h n s) h (xs ++ ys)
queue_add-Ring s h n xs [] r q apart =
    let t = queue_add h n s in
    let last : In (s.prev h) (h ∷ xs) = prev-In s xs h h r.chain in
    let n_last : n ≢ s.prev h = ground (arith, apart (s.prev h) last) in
    let n_h : n ≢ h = ground (arith, apart h (inl refl)) in
    let next = empty-next s h n (q.chain.0) (q.chain.1) n_h n_last in
    let prev = empty-prev s h n (q.chain.0) (q.chain.1) n_h n_last in
    rw (append-nil xs) (record {
      chain =
          Chain-retarget s t xs h h h r.chain r.distinct (ground (arith, next (s.prev h)))
            (ground (arith, prev h, n_h)) (λ p i ne. ground (arith, next p, ne))
            (λ p i. ground (arith, prev p, apart p (inr i)));
      distinct = r.distinct;
    })
queue_add-Ring s h n xs (y ∷ ys) r q apart = record {
  chain =
      Chain-append t xs ys h y h
        (Chain-retarget s t xs h h y r.chain r.distinct
          (ground (arith, next (s.prev h), first, ends_differ)) (ground (arith, prev y, first, h_y))
          (λ p i ne. ground (arith, next p, ne, NotIn-In p (s.prev n) (y ∷ ys) (apart p i).1 last'))
          (λ p i. ground (
            arith,
            prev p,
            first,
            NotIn-In h p xs (r.distinct.0) i,
            NotIn-In p y (y ∷ ys) (apart p (inr i)).1 (inl refl),
          )))
        (Chain-retarget s t ys y n h (q.chain.2) (q.distinct.1) (ground (arith, next (s.prev n)))
          (ground (arith, prev h))
          (λ p i ne.
            ground (arith, next p, ne, NotIn-In (s.prev h) p (y ∷ ys) (apart (s.prev h) last).1 i))
          (λ p i. ground (
            arith,
            prev p,
            first,
            NotIn-In h p (y ∷ ys) (apart h (inl refl)).1 (inr i),
            NotIn-In y p ys (q.distinct.1.0) i,
          )));
  distinct = Distinct-join (h ∷ xs) (y ∷ ys) r.distinct (q.distinct.1) (λ a i. (apart a i).1);
}
  where
    t : Store
    t = queue_add h n s

    first : s.next n ≡ y
    first = q.chain.0

    last : In (s.prev h) (h ∷ xs)
    last = prev-In s xs h h r.chain

    last' : In (s.prev n) (y ∷ ys)
    last' = prev-In s ys y n (q.chain.2)

    ends_differ : s.prev h ≢ s.prev n
    ends_differ = NotIn-In (s.prev h) (s.prev n) (y ∷ ys) (apart (s.prev h) last).1 last'

    h_y : h ≢ y
    h_y = (apart h (inl refl)).1.0

    n_y : n ≢ s.next n
    n_y = ground (arith, first, q.distinct)

    n_last : n ≢ s.prev h
    n_last = ground (arith, apart (s.prev h) last)

    next :
        (p : Ptr)
        → t.next p ≡ (if p == s.prev n then h else if p == s.prev h then s.next n else s.next p)
    next = add-next s h n n_y n_last

    prev :
        (p : Ptr)
        → t.prev p ≡ (if p == h then s.prev n else if p == s.next n then s.prev h else s.prev p)
    prev = add-prev s h n n_y n_last
