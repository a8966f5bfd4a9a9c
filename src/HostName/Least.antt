-- ===== src/HostName/Least.antt =====
-- The search of uv__idna_toascii_label (libuv/src/idna.c) for the next code point.
use libuv_analyse.Base.{
  ℕ, ◌+◌, ◌≤◌, ◌<◌, ◌≡◌, refl, ◌⊎◌, inl, inr, true, ◌&&◌, by_if, Bool-cases, List, [], ◌∷◌, ltb,
  leb, ◌==◌, if◌then◌else◌, arith,
}
use libuv_analyse.Utf8.{uint_max}
use libuv_analyse.HostName.{least}

-- How many code points are `n` or more, and how many are `n`.
unfoldable pub from : ℕ → List ℕ → ℕ
from n [] = 0
from n (c ∷ cs) = (if leb n c then 1 else 0) + from n cs

unfoldable pub same : ℕ → List ℕ → ℕ
same n [] = 0
same n (c ∷ cs) = (if c == n then 1 else 0) + same n cs

unfoldable pub AllPoints : List ℕ → Type 0
AllPoints [] = Unit
AllPoints (c ∷ cs) = (c < uint_max) × AllPoints cs

pub from-same : (n : ℕ) (cs : List ℕ) → from n cs ≡ same n cs + from (n + 1) cs
unfolding from same
from-same n [] = refl
from-same n (c ∷ cs) = ground (arith, from-same n cs)

pub least_bound : (n m : ℕ) (cs : List ℕ) → least n m cs ≤ m
unfolding least
least_bound n m [] = omega arith
least_bound n m (c ∷ cs) =
    let rest = least_bound n (if leb n c && ltb c m then c else m) cs in ground (arith, rest)

pub least_from : (n m : ℕ) (cs : List ℕ) → n ≤ m → n ≤ least n m cs
unfolding least
least_from n m [] h = h
least_from n m (c ∷ cs) h = least_from n (if leb n c && ltb c m then c else m) cs (ground arith)

-- Below the least of the code points from `n` on there is none.
pub from-least : (n m l : ℕ) (cs : List ℕ) → n ≤ l → l ≤ least n m cs → from n cs ≡ from l cs
unfolding least from
from-least n m l [] low high = refl
from-least n m l (c ∷ cs) low high =
    let m' = if leb n c && ltb c m then c else m in
    let rest = from-least n m' l cs low high in
    let top = least_bound n m' cs in ground (arith, rest, top, high, low)

pub least_below :
    (n : ℕ) (cs : List ℕ) → 0 < from n cs → AllPoints cs → least n uint_max cs < uint_max
unfolding least from AllPoints
least_below n [] some_point all = absurd (omega (arith, some_point))
least_below n (c ∷ cs) some_point all = elim (Bool-cases (leb n c)) [
  | inl t ↦
      let small : ltb c uint_max ≡ true = ground (arith, all.0) in
      let top = least_bound n c cs in rw (t, small) (omega (arith, top, all.0))
  | inr f ↦
      let later : 0 < from n cs = ground (arith, f, some_point) in
      rw f (least_below n cs later all.1)
]

pub same_here : (l c : ℕ) (cs : List ℕ) → l ≡ c → 0 < same l (c ∷ cs)
unfolding same
same_here l c cs e = ground (arith, e)

pub same_later : (l c : ℕ) (cs : List ℕ) → 0 < same l cs → 0 < same l (c ∷ cs)
unfolding same
same_later l c cs found = omega (arith, found)

pub least_found : (n m : ℕ) (cs : List ℕ) → (least n m cs ≡ m) ⊎ (0 < same (least n m cs) cs)
unfolding least
least_found n m [] = inl refl
least_found n m (c ∷ cs) =
    by_if (λ m'. (least n m' cs ≡ m) ⊎ (0 < same (least n m' cs) (c ∷ cs))) (leb n c && ltb c m)
      (λ _. elim (least_found n c cs) [
        | inl e ↦ inr (same_here _ c cs e)
        | inr found ↦ inr (same_later _ c cs found)
      ])
      (λ _. elim (least_found n m cs) [ inl e ↦ inl e | inr found ↦ inr (same_later _ c cs found) ])

pub from_below : (n : ℕ) (cs : List ℕ) → 0 < from n cs → AllPoints cs → n < uint_max
unfolding from AllPoints
from_below n [] some_point all = absurd (omega (arith, some_point))
from_below n (c ∷ cs) some_point all = elim (Bool-cases (leb n c)) [
  | inl t ↦ ground (arith, t, all.0)
  | inr f ↦ from_below n cs (ground (arith, f, some_point)) all.1
]
