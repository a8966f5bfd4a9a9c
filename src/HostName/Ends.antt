-- ===== src/HostName/Ends.antt =====
-- The loops of uv__idna_toascii_label (libuv/src/idna.c) end.
use native.Mathlib.Nat.{mod-lt, pow-suc, div-lt_iff_lt-mul, mul-le-mul_left}
use libuv_analyse.Base.{
  ℕ, zero, suc, ◌+◌, ◌-◌, ◌*◌, ◌/◌, ◌%◌, ◌^◌, ◌≤◌, ◌<◌, ◌≡◌, refl, subst, inl, inr, false, by_if,
  Bool-cases, List, [], ◌∷◌, some, ltb, ◌==◌, if◌then◌else◌, arith,
}
use libuv_analyse.Utf8.{uint_max}
use libuv_analyse.HostName.{
  and_then, finish, rescaled, written_point, least, threshold, digits, rescale, Encoder, halved,
  write_point, Turn, goes_on, too_big, runs_out, or_runs_out, visit, visit_loop, round, Result,
  result, einval, e2big, no_fuel, encode_loop,
}
use libuv_analyse.HostName.Written.{threshold_range}
use libuv_analyse.HostName.Least.{
  from, same, AllPoints, from-same, least_from, from-least, least_below, least_found, from_below,
}

-- A word of 32 bits has at most 10 digits in the numbers to the varying bases, as each is 10 at least.
digits_end :
    (fuel room bias k q : ℕ) (out : List ℕ)
    → q < 10 ^ fuel
    → (r : ℕ × List ℕ) × (digits (suc fuel) room bias k q out ≡ some r)
unfolding digits
digits_end zero room bias k q out small =
    let (low, high) = threshold_range k bias in
    by_if (λ o. (r : ℕ × List ℕ) × (o ≡ some r)) (ltb q (threshold k bias)) (λ _. ((q, out), refl))
      (λ far. absurd (ground (arith, far, low, small)))
digits_end (suc fuel) room bias k q out small =
    let (low, high) = threshold_range k bias in
    let t = threshold k bias in
    let wide : 10 ^ fuel * 10 ≤ 10 ^ fuel * (36 - t) =
      mul-le-mul_left (10 ^ fuel) (omega (arith, high)) in
    let quotient : (q - t) / (36 - t) < 10 ^ fuel =
      (div-lt_iff_lt-mul {k = 36 - t} (omega (arith, high))).1
        (omega (arith, wide, small, pow-suc 10 fuel)) in
    by_if (λ o. (r : ℕ × List ℕ) × (o ≡ some r)) (ltb q t) (λ _. ((q, out), refl))
      (λ _. digits_end fuel room bias (k + 36) ((q - t) / (36 - t)) _ quotient)

rescale_end :
    (fuel delta bias : ℕ)
    → delta < 456 * 35 ^ fuel
    → (r : ℕ × ℕ) × (rescale (suc fuel) delta bias ≡ some r)
unfolding rescale
rescale_end zero delta bias small =
    by_if (λ o. (r : ℕ × ℕ) × (o ≡ some r)) (ltb (35 * 26 / 2) delta)
      (λ far. absurd (ground (arith, far, small))) (λ _. ((delta, bias), refl))
rescale_end (suc fuel) delta bias small =
    by_if (λ o. (r : ℕ × ℕ) × (o ≡ some r)) (ltb (35 * 26 / 2) delta)
      (λ _. rescale_end fuel (delta / 35) (bias + 36) (omega (arith, small, pow-suc 35 fuel)))
      (λ _. ((delta, bias), refl))

-- What a code point leaves: the turn does not run out, and `t` code points are to do.
Left : ℕ → ℕ → Turn → Type 0
Left n t (goes_on f) = (f.n ≡ n) × (f.todo ≡ t) × (f.delta < 2 ^ 32)
Left n t too_big = Unit
Left n t runs_out = ⊥

write_point-Left :
    (room : ℕ) (e : Encoder)
    → e.delta < 2 ^ 32
    → Left e.n (e.todo - 1) (or_runs_out (write_point room e))
unfolding write_point written_point rescaled or_runs_out Left
write_point-Left room e word =
    let (r, written) = digits_end 10 room e.bias 36 e.delta e.out (omega (arith, word)) in
    let half : halved e < 2 ^ 32 = mod-lt _ (omega arith) in
    let (d, scaled) = rescale_end 6 (halved e) 0 (omega (arith, half)) in
    rw (written, scaled) (refl, refl, omega arith)

visit-Left :
    (room c : ℕ) (e : Encoder)
    → e.delta < 2 ^ 32
    → Left e.n (if c == e.n then e.todo - 1 else e.todo) (visit room c e)
unfolding visit Left
visit-Left room c e word =
    by_if (Left e.n (if c == e.n then e.todo - 1 else e.todo)) (ltb c e.n)
      (λ before.
        let other : (c == e.n) ≡ false = ground (arith, before) in
        by_if (Left e.n (if c == e.n then e.todo - 1 else e.todo)) ((e.delta + 1) % 2 ^ 32 == 0)
          (λ _. tt) (λ _. rw other (refl, refl, mod-lt (e.delta + 1) (omega arith))))
      (λ _. elim (Bool-cases (c == e.n)) [
        | inl t ↦ rw t (write_point-Left room e word)
        | inr f ↦ rw f (refl, refl, word)
      ])

and_then-Left :
    (n t n' t' : ℕ) (x : Turn) (g : Encoder → Turn)
    → Left n t x
    → ((f : Encoder) → f.n ≡ n → f.todo ≡ t → f.delta < 2 ^ 32 → Left n' t' (g f))
    → Left n' t' (and_then x g)
unfolding and_then Left
and_then-Left n t n' t' (goes_on f) g left keeps = keeps f left.0 left.1 left.2
and_then-Left n t n' t' too_big g left keeps = tt
and_then-Left n t n' t' runs_out g left keeps = absurd left

visit_loop-Left :
    (room : ℕ) (cs : List ℕ) (e : Encoder)
    → e.delta < 2 ^ 32
    → Left e.n (e.todo - same e.n cs) (visit_loop room cs e)
unfolding visit_loop Left same
visit_loop-Left room [] e word = (refl, omega arith, word)
visit_loop-Left room (c ∷ cs) e word =
    and_then-Left e.n (if c == e.n then e.todo - 1 else e.todo) e.n (e.todo - same e.n (c ∷ cs))
      (visit room c e) (λ f. visit_loop room cs f) (visit-Left room c e word)
      (λ f number to_do small.
        let rest =
          subst (λ n. Left n (f.todo - same n cs) (visit_loop room cs f)) number
            (visit_loop-Left room cs f small) in
        let count : f.todo - same e.n cs ≡ e.todo - same e.n (c ∷ cs) = ground (arith, to_do) in
        subst (λ t. Left e.n t (visit_loop room cs f)) count rest)

-- What a round leaves: it does not run out, and there are fewer code points to do, those from `n` on.
Progress : ℕ → List ℕ → Turn → Type 0
Progress t cs (goes_on f) = (f.todo ≡ from f.n cs) × (f.todo < t)
Progress t cs too_big = Unit
Progress t cs runs_out = ⊥

and_then-Progress :
    (n k t : ℕ) (cs : List ℕ) (x : Turn) (g : Encoder → Turn)
    → Left n k x
    → ((f : Encoder) → f.n ≡ n → f.todo ≡ k → Progress t cs (g f))
    → Progress t cs (and_then x g)
unfolding and_then Left Progress
and_then-Progress n k t cs (goes_on f) g left keeps = keeps f left.0 left.1
and_then-Progress n k t cs too_big g left keeps = tt
and_then-Progress n k t cs runs_out g left keeps = absurd left

round-Progress :
    (room : ℕ) (cs : List ℕ) (e : Encoder)
    → AllPoints cs
    → e.todo ≡ from e.n cs
    → 0 < e.todo
    → Progress e.todo cs (round room cs e)
unfolding round Progress
round-Progress room cs e all counts more =
    let m = least e.n uint_max cs in
    let some_point : 0 < from e.n cs = omega (arith, counts, more) in
    let below : m < uint_max = least_below e.n cs some_point all in
    let above : e.n ≤ m =
      least_from e.n uint_max cs (omega (arith, from_below e.n cs some_point all)) in
    let whole : from e.n cs ≡ from m cs = from-least e.n uint_max m cs above (omega arith) in
    let found : 0 < same m cs = elim (least_found e.n uint_max cs) [
      | inl is_max ↦ absurd (omega (arith, is_max, below))
      | inr found ↦ found
    ] in
    by_if (Progress e.todo cs) (ltb ((uint_max - e.delta) / ((e.h + 1) % 2 ^ 32)) (m - e.n))
      (λ _. tt)
      (λ _.
        and_then-Progress m (e.todo - same m cs) e.todo cs _ _
          (visit_loop-Left room cs
            (record e { delta = (e.delta + (m - e.n) * ((e.h + 1) % 2 ^ 32)) % 2 ^ 32; n = m })
            (mod-lt _ (omega arith)))
          (λ f number to_do.
            let next : (f.n + 1) % 2 ^ 32 ≡ m + 1 = omega (arith, number, below) in
            (
              rw next (omega (arith, to_do, counts, whole, from-same m cs)),
              omega (arith, to_do, found, more),
            )))

unfoldable pub Ends : Result → Type 0
Ends no_fuel = ⊥
Ends (result n out) = Unit
Ends einval = Unit
Ends e2big = Unit

finish-Ends :
    (t : ℕ) (cs : List ℕ) (x : Turn) (g : Encoder → Result)
    → Progress t cs x
    → ((f : Encoder) → f.todo ≡ from f.n cs → f.todo < t → Ends (g f))
    → Ends (finish x g)
unfolding finish Progress Ends
finish-Ends t cs (goes_on f) g left keeps = keeps f left.0 left.1
finish-Ends t cs too_big g left keeps = tt
finish-Ends t cs runs_out g left keeps = absurd left

pub encode_loop-Ends :
    (fuel room : ℕ) (cs : List ℕ) (e : Encoder)
    → AllPoints cs
    → e.todo ≡ from e.n cs
    → e.todo ≤ fuel
    → Ends (encode_loop fuel room cs e)
unfolding encode_loop Ends
encode_loop-Ends zero room cs e all counts enough =
    by_if Ends (e.todo == 0) (λ _. tt) (λ more. absurd (ground (arith, more, enough)))
encode_loop-Ends (suc fuel) room cs e all counts enough =
    by_if Ends (e.todo == 0) (λ _. tt)
      (λ more.
        finish-Ends e.todo cs (round room cs e) _
          (round-Progress room cs e all counts (ground (arith, more)))
          (λ f fewer less. encode_loop-Ends fuel room cs f all fewer (omega (arith, less, enough))))
