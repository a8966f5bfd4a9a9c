-- ===== src/Queue/Unlink.antt =====
-- QUEUE_REMOVE of libuv/src/queue.h on rings.
use libuv_analyse.Base.{
  ◌≡◌, inl, inr, refl, sym, arith, List, [], ◌∷◌, ◌++◌, append-nil, ◌==◌, if◌then◌else◌,
}
use libuv_analyse.Queue.{Ptr, Store, queue_remove}
use libuv_analyse.Queue.Ring.{
  Chain, NotIn, Distinct, Ring, NotIn-In, NotIn-append, NotIn-split, Distinct-split, Distinct-apart,
  Distinct-drop, Chain-append, Chain-split, Chain-frame, Chain-retarget, prev-In,
}

module _ (s : Store) (q : Ptr) where
  remove-next :
      (p : Ptr) → (queue_remove q s).next p ≡ (if p == s.prev q then s.next q else s.next p)
  unfolding queue_remove
  remove-next p = ground arith

  remove-prev :
      (p : Ptr) → (queue_remove q s).prev p ≡ (if p == s.next q then s.prev q else s.prev p)
  unfolding queue_remove
  remove-prev p = ground arith

remove-Chain :
    (s : Store) (h q : Ptr) (xs ys : List Ptr)
    → Chain s h xs q
    → Chain s q ys h
    → Distinct (h ∷ (xs ++ q ∷ ys))
    → Chain (queue_remove q s) h (xs ++ ys) h
remove-Chain s h q xs [] c (to, from) (out, d) = rw append-nil (
    Chain-retarget s (queue_remove q s) xs h q h c (first.0, (Distinct-split xs (q ∷ []) d).0)
      (ground (arith, remove-next s q (s.prev q))) (ground (arith, remove-prev s q h))
      (λ p i ne. ground (arith, remove-next s q p))
      (λ p i. ground (arith, remove-prev s q p, NotIn-In h p xs first.0 i)))
  where
    first : NotIn h xs × NotIn h (q ∷ [])
    first = NotIn-split h xs (q ∷ []) out
remove-Chain s h q xs (y ∷ ys) c (to, from, rest) (out, d) =
    Chain-append t xs ys h y h
      (Chain-retarget s t xs h q y c (first.0, (Distinct-split xs (q ∷ y ∷ ys) d).0)
        (ground (arith, remove-next s q (s.prev q))) (ground (arith, remove-prev s q y))
        (λ p i ne. ground (arith, remove-next s q p))
        (λ p i.
          ground
            (arith, remove-prev s q p, Distinct-apart p y xs (q ∷ y ∷ ys) d i (inr (inl refl)))))
      (Chain-frame s t ys y h rest
        (λ p i. ground (
          arith,
          remove-next s q p,
          Distinct-apart (s.prev q) p (h ∷ xs) (q ∷ y ∷ ys) (out, d) (prev-In s xs h q c) (inr i),
        ))
        (λ p i. ground (arith, remove-prev s q p, NotIn-In y p (ys ++ h ∷ []) y_out i)))
  where
    t : Store
    t = queue_remove q s

    first : NotIn h xs × NotIn h (q ∷ y ∷ ys)
    first = NotIn-split h xs (q ∷ y ∷ ys) out

    y_out : NotIn y (ys ++ h ∷ [])
    y_out =
        NotIn-append y ys (h ∷ []) ((Distinct-split xs (q ∷ y ∷ ys) d).1.1.0)
          ((λ e. first.1.1.0 (sym e)), tt)

-- QUEUE_REMOVE takes one element out, wherever it stands, and leaves the others in order.
pub queue_remove-Ring :
    (s : Store) (h q : Ptr) (xs ys : List Ptr)
    → Ring s h (xs ++ q ∷ ys)
    → Ring (queue_remove q s) h (xs ++ ys)
queue_remove-Ring s h q xs ys r =
    let (front, back) = Chain-split s xs ys h q h r.chain in
    record {
      chain = remove-Chain s h q xs ys front back r.distinct;
      distinct = Distinct-drop (h ∷ xs) q ys r.distinct;
    }
