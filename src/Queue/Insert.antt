-- ===== src/Queue/Insert.antt =====
-- QUEUE_INIT, QUEUE_INSERT_TAIL and QUEUE_INSERT_HEAD of libuv/src/queue.h on rings.
use libuv_analyse.Base.{◌≡◌, ◌≢◌, sym, arith, List, [], ◌∷◌, ◌++◌, ◌==◌, if◌then◌else◌}
use libuv_analyse.Queue.{Ptr, Store, queue_init, queue_insert_tail, queue_insert_head}
use libuv_analyse.Queue.Ring.{
  NotIn, Distinct, Ring, NotIn-In, NotIn-append, Chain-append, Chain-frame, Chain-retarget, prev-In,
}

-- A queue that has been initialised is an empty ring, whatever its pointers held.
pub queue_init-Ring : (s : Store) (h : Ptr) → Ring (queue_init h s) h []
unfolding queue_init
queue_init-Ring s h = record { chain = ground arith; distinct = (tt, tt) }

module _ (s : Store) (h q : Ptr) (new : q ≢ h) where
  insert_tail-next :
      (p : Ptr)
      → (queue_insert_tail h q s).next p
        ≡ (if p == s.prev h then q else if p == q then h else s.next p)
  unfolding queue_insert_tail
  insert_tail-next p = ground arith

  insert_tail-prev :
      (p : Ptr)
      → (queue_insert_tail h q s).prev p
        ≡ (if p == h then q else if p == q then s.prev h else s.prev p)
  unfolding queue_insert_tail
  insert_tail-prev p = ground arith

Distinct-snoc : (xs : List Ptr) (q : Ptr) → Distinct xs → NotIn q xs → Distinct (xs ++ q ∷ [])
Distinct-snoc [] q d n = (tt, tt)
Distinct-snoc (x ∷ xs) q (out, d) (ne, n) =
    (NotIn-append x xs (q ∷ []) out ((λ e. ne (sym e)), tt), Distinct-snoc xs q d n)

-- QUEUE_INSERT_TAIL puts a new element behind the others.
pub queue_insert_tail-Ring :
    (s : Store) (h q : Ptr) (xs : List Ptr)
    → Ring s h xs
    → NotIn q (h ∷ xs)
    → Ring (queue_insert_tail h q s) h (xs ++ q ∷ [])
queue_insert_tail-Ring s h q xs r (new, out) =
    let last = prev-In s xs h h r.chain in
    let apart : q ≢ s.prev h = NotIn-In q (s.prev h) (h ∷ xs) (new, out) last in
    record {
      chain =
          Chain-append t xs [] h q h
            (Chain-retarget s t xs h h q r.chain r.distinct (ground (arith, next (s.prev h)))
              (ground (arith, prev q))
              (λ p i ne. ground (arith, next p, NotIn-In q p (h ∷ xs) (new, out) i))
              (λ p i.
                ground (arith, prev p, NotIn-In q p xs out i, NotIn-In h p xs r.distinct.0 i)))
            (ground (arith, next q), ground (arith, prev h));
      distinct = Distinct-snoc (h ∷ xs) q r.distinct (new, out);
    }
  where
    t : Store
    t = queue_insert_tail h q s

    next : (p : Ptr) → t.next p ≡ (if p == s.prev h then q else if p == q then h else s.next p)
    next = insert_tail-next s h q new

    prev : (p : Ptr) → t.prev p ≡ (if p == h then q else if p == q then s.prev h else s.prev p)
    prev = insert_tail-prev s h q new

module _ (s : Store) (h q : Ptr) (new : q ≢ h) (behind : q ≢ s.next h) where
  insert_head-next :
      (p : Ptr)
      → (queue_insert_head h q s).next p
        ≡ (if p == h then q else if p == q then s.next h else s.next p)
  unfolding queue_insert_head
  insert_head-next p = ground arith

  insert_head-prev :
      (p : Ptr)
      → (queue_insert_head h q s).prev p
        ≡ (if p == s.next h then q else if p == q then h else s.prev p)
  unfolding queue_insert_head
  insert_head-prev p = ground arith

-- QUEUE_INSERT_HEAD puts a new element before the others.
pub queue_insert_head-Ring :
    (s : Store) (h q : Ptr) (xs : List Ptr)
    → Ring s h xs
    → NotIn q (h ∷ xs)
    → Ring (queue_insert_head h q s) h (q ∷ xs)
queue_insert_head-Ring s h q [] r (new, out) = record {
  chain = ground (arith, next h, next q, prev h, prev q, r.chain);
  distinct = (((λ e. new (sym e)), tt), (tt, tt));
}
  where
    behind : q ≢ s.next h
    behind = ground (arith, r.chain)

    next :
        (p : Ptr)
        → (queue_insert_head h q s).next p
          ≡ (if p == h then q else if p == q then s.next h else s.next p)
    next = insert_head-next s h q new behind

    prev :
        (p : Ptr)
        → (queue_insert_head h q s).prev p
          ≡ (if p == s.next h then q else if p == q then h else s.prev p)
    prev = insert_head-prev s h q new behind
queue_insert_head-Ring s h q (x ∷ xs) r (new, (ne, out)) =
    let (first, back, rest) = r.chain in
    let ((h_ne, h_out), (x_out, d)) = r.distinct in
    record {
      chain = (
        ground (arith, next h),
        ground (arith, prev q),
        (
          ground (arith, next q),
          ground (arith, prev x),
          Chain-frame s t xs x h rest
              (λ p i. ground (
                arith,
                next p,
                NotIn-In h p (x ∷ xs) (h_ne, h_out) i,
                NotIn-In q p (x ∷ xs) (ne, out) i,
              ))
              (λ p i. ground (
                arith,
                prev p,
                NotIn-In x p (xs ++ h ∷ [])
                    (NotIn-append x xs (h ∷ []) x_out ((λ e. h_ne (sym e)), tt)) i,
                NotIn-In q p (xs ++ h ∷ []) (NotIn-append q xs (h ∷ []) out (new, tt)) i,
              )),
        ),
      );
      distinct = (((λ e. new (sym e)), (h_ne, h_out)), ((ne, out), (x_out, d)));
    }
  where
    t : Store
    t = queue_insert_head h q s

    behind : q ≢ s.next h
    behind = ground (arith, r.chain)

    next : (p : Ptr) → t.next p ≡ (if p == h then q else if p == q then s.next h else s.next p)
    next = insert_head-next s h q new behind

    prev : (p : Ptr) → t.prev p ≡ (if p == s.next h then q else if p == q then h else s.prev p)
    prev = insert_head-prev s h q new behind
