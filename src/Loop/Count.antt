-- ===== src/Loop/Count.antt =====
-- Counting the handles of a queue that meet a condition, such as being active and referenced.
use libuv_analyse.Base.{
  ℕ, ◌+◌, ◌≤◌, ◌≡◌, refl, ◌&&◌, List, [], ◌∷◌, ◌++◌, length, ◌==◌, if◌then◌else◌, arith,
}
use libuv_analyse.Heap.{Ptr}
use libuv_analyse.Loop.{Handle, store}

-- 1 for a handle that keeps the loop alive.
unfoldable pub weight : Handle → ℕ
weight h = if h.active && h.referenced then 1 else 0

-- `w` is 1 for the handles to count and 0 for the others.
unfoldable pub counted : (Handle → ℕ) → (Ptr → Handle) → List Ptr → ℕ
counted w f [] = 0
counted w f (p ∷ q) = w (f p) + counted w f q

unfoldable pub occurrences : Ptr → List Ptr → ℕ
occurrences p [] = 0
occurrences p (x ∷ q) = (if x == p then 1 else 0) + occurrences p q

pub weight_le : (h : Handle) → weight h ≤ 1
unfolding weight
weight_le h = ground arith

pub occurrences-append :
    (p : Ptr) (q r : List Ptr) → occurrences p (q ++ r) ≡ occurrences p q + occurrences p r
unfolding occurrences
occurrences-append p [] r = omega arith
occurrences-append p (x ∷ q) r = omega (arith, occurrences-append p q r)

module _ (w : Handle → ℕ) (f : Ptr → Handle) where
  pub counted_absent :
      (p : Ptr) (v : Handle) (q : List Ptr)
      → occurrences p q ≡ 0
      → counted w (store f p v) q ≡ counted w f q
  unfolding counted occurrences
  counted_absent p v [] e = refl
  counted_absent p v (x ∷ q) e = ground (arith, counted_absent p v q)

  pub counted_once :
      (p : Ptr) (v : Handle) (q : List Ptr)
      → occurrences p q ≡ 1
      → counted w (store f p v) q + w (f p) ≡ counted w f q + w v
  unfolding counted occurrences
  counted_once p v [] e = absurd (omega arith)
  counted_once p v (x ∷ q) e = ground (arith, counted_once p v q, counted_absent p v q)

  pub counted_le : ((h : Handle) → w h ≤ 1) → (q : List Ptr) → counted w f q ≤ length q
  unfolding counted
  counted_le le [] = omega arith
  counted_le le (x ∷ q) = omega (arith, counted_le le q, le (f x))

  pub counted_room :
      ((h : Handle) → w h ≤ 1)
      → (p : Ptr) (q : List Ptr) → occurrences p q ≡ 1
      → counted w f q + 1 ≤ length q + w (f p)
  unfolding counted occurrences
  counted_room le p [] e = absurd (omega arith)
  counted_room le p (x ∷ q) e = ground (arith, counted_room le p q, le (f x), counted_le le q)

  pub weight_le_counted : (p : Ptr) (q : List Ptr) → occurrences p q ≡ 1 → w (f p) ≤ counted w f q
  unfolding counted occurrences
  weight_le_counted p [] e = absurd (omega arith)
  weight_le_counted p (x ∷ q) e = ground (arith, weight_le_counted p q)

  pub counted-append : (q r : List Ptr) → counted w f (q ++ r) ≡ counted w f q + counted w f r
  unfolding counted
  counted-append [] r = omega arith
  counted-append (x ∷ q) r = omega (arith, counted-append q r)
