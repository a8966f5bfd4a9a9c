-- ===== src/Queue/Ring.antt =====
-- When the pointers of a store form the ring of a queue head and its elements, in order.
use libuv_analyse.Base.{◌≡◌, ◌≢◌, ◌⊎◌, inl, inr, refl, sym, ◌∙◌, List, [], ◌∷◌, ◌++◌}
use libuv_analyse.Queue.{Ptr, Store}

-- From `a` the pointers lead through `xs` to `b`, and back.
abbrev pub Chain : Store → Ptr → List Ptr → Ptr → Type 0
Chain s a [] b = (s.next a ≡ b) × (s.prev b ≡ a)
Chain s a (x ∷ xs) b = (s.next a ≡ x) × (s.prev x ≡ a) × Chain s x xs b

abbrev pub NotIn : Ptr → List Ptr → Type 0
NotIn a [] = Unit
NotIn a (x ∷ xs) = (a ≢ x) × NotIn a xs

abbrev pub In : Ptr → List Ptr → Type 0
In a [] = ⊥
In a (x ∷ xs) = (a ≡ x) ⊎ In a xs

abbrev pub Distinct : List Ptr → Type 0
Distinct [] = Unit
Distinct (x ∷ xs) = NotIn x xs × Distinct xs

-- The head `h` and the elements `xs` are linked in a circle.
pub record Ring (s : Store) (h : Ptr) (xs : List Ptr) : Type 0 where
  pub chain : Chain s h xs h
  pub distinct : Distinct (h ∷ xs)

pub NotIn-In : (a b : Ptr) (xs : List Ptr) → NotIn a xs → In b xs → a ≢ b
NotIn-In a b [] n i = absurd i
NotIn-In a b (x ∷ xs) (ne, n) (inl e) = λ q. ne (q ∙ e)
NotIn-In a b (x ∷ xs) (ne, n) (inr i) = NotIn-In a b xs n i

pub NotIn-append : (a : Ptr) (xs ys : List Ptr) → NotIn a xs → NotIn a ys → NotIn a (xs ++ ys)
NotIn-append a [] ys n m = m
NotIn-append a (x ∷ xs) ys (ne, n) m = (ne, NotIn-append a xs ys n m)

pub NotIn-split : (a : Ptr) (xs ys : List Ptr) → NotIn a (xs ++ ys) → NotIn a xs × NotIn a ys
NotIn-split a [] ys n = (tt, n)
NotIn-split a (x ∷ xs) ys (ne, n) = let (l, r) = NotIn-split a xs ys n in ((ne, l), r)

pub Distinct-split : (xs ys : List Ptr) → Distinct (xs ++ ys) → Distinct xs × Distinct ys
Distinct-split [] ys d = (tt, d)
Distinct-split (x ∷ xs) ys (n, d) =
    let (l, r) = Distinct-split xs ys d in (((NotIn-split x xs ys n).0, l), r)

-- Elements of two parts of a list without repetition differ.
pub Distinct-apart :
    (a b : Ptr) (xs ys : List Ptr) → Distinct (xs ++ ys) → In a xs → In b ys → a ≢ b
Distinct-apart a b [] ys d i j = absurd i
Distinct-apart a b (x ∷ xs) ys (n, d) (inl e) j =
    λ q. NotIn-In x b ys ((NotIn-split x xs ys n).1) j (sym e ∙ q)
Distinct-apart a b (x ∷ xs) ys (n, d) (inr i) j = Distinct-apart a b xs ys d i j

pub Distinct-join :
    (xs ys : List Ptr)
    → Distinct xs
    → Distinct ys
    → ((a : Ptr) → In a xs → NotIn a ys)
    → Distinct (xs ++ ys)
Distinct-join [] ys d e apart = e
Distinct-join (x ∷ xs) ys (n, d) e apart =
    (NotIn-append x xs ys n (apart x (inl refl)), Distinct-join xs ys d e (λ a i. apart a (inr i)))

pub Distinct-drop :
    (xs : List Ptr) (q : Ptr) (ys : List Ptr) → Distinct (xs ++ q ∷ ys) → Distinct (xs ++ ys)
Distinct-drop [] q ys (n, d) = d
Distinct-drop (x ∷ xs) q ys (n, d) =
    let (l, r) = NotIn-split x xs (q ∷ ys) n in
    (NotIn-append x xs ys l (r.1), Distinct-drop xs q ys d)

module _ (s : Store) where
  pub Chain-append :
      (xs ys : List Ptr) (a m b : Ptr)
      → Chain s a xs m
      → Chain s m ys b
      → Chain s a (xs ++ m ∷ ys) b
  Chain-append [] ys a m b (e, f) d = (e, f, d)
  Chain-append (x ∷ xs) ys a m b (e, f, c) d = (e, f, Chain-append xs ys x m b c d)

  pub Chain-split :
      (xs ys : List Ptr) (a m b : Ptr)
      → Chain s a (xs ++ m ∷ ys) b
      → Chain s a xs m × Chain s m ys b
  Chain-split [] ys a m b (e, f, d) = ((e, f), d)
  Chain-split (x ∷ xs) ys a m b (e, f, c) = let (l, r) = Chain-split xs ys x m b c in ((e, f, l), r)

  -- The end's predecessor is the start or an element.
  pub prev-In : (xs : List Ptr) (a b : Ptr) → Chain s a xs b → In (s.prev b) (a ∷ xs)
  prev-In [] a b (e, f) = inl f
  prev-In (x ∷ xs) a b (e, f, c) = inr (prev-In xs x b c)

module _ (s t : Store) where
  -- A chain survives a change elsewhere.
  pub Chain-frame :
      (xs : List Ptr) (a b : Ptr)
      → Chain s a xs b
      → ((p : Ptr) → In p (a ∷ xs) → t.next p ≡ s.next p)
      → ((p : Ptr) → In p (xs ++ b ∷ []) → t.prev p ≡ s.prev p)
      → Chain t a xs b
  Chain-frame [] a b (e, f) n p = (n a (inl refl) ∙ e, p b (inl refl) ∙ f)
  Chain-frame (x ∷ xs) a b (e, f, c) n p = (
    n a (inl refl) ∙ e,
    p x (inl refl) ∙ f,
    Chain-frame xs x b c (λ q i. n q (inr i)) (λ q i. p q (inr i)),
  )

  -- A chain to `b` becomes a chain to `c` when the pointers between `c` and the predecessor of `b` are
  -- set, and no others of the chain.
  pub Chain-retarget :
      (xs : List Ptr) (a b c : Ptr)
      → Chain s a xs b
      → Distinct (a ∷ xs)
      → t.next (s.prev b) ≡ c
      → t.prev c ≡ s.prev b
      → ((p : Ptr) → In p (a ∷ xs) → p ≢ s.prev b → t.next p ≡ s.next p)
      → ((p : Ptr) → In p xs → t.prev p ≡ s.prev p)
      → Chain t a xs c
  Chain-retarget [] a b c (e, f) d to from n p = (rw f at to, from ∙ f)
  Chain-retarget (x ∷ xs) a b c (e, f, r) (out, d) to from n p = (
    n a (inl refl) (NotIn-In a (s.prev b) (x ∷ xs) out (prev-In s xs x b r)) ∙ e,
    p x (inl refl) ∙ f,
    Chain-retarget xs x b c r d to from (λ q i. n q (inr i)) (λ q i. p q (inr i)),
  )
