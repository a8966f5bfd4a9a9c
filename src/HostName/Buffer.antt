-- ===== src/HostName/Buffer.antt =====
-- The buffer of uv__idna_toascii (libuv/src/idna.c).
use libuv_analyse.Base.{
  ℕ, zero, suc, ◌-◌, ◌≡◌, refl, subst, by_if, not, List, [], ◌∷◌, length, take, ◌==◌, arith,
}
use libuv_analyse.Utf8.{uint_max, utf8_decode1}
use libuv_analyse.HostName.{
  put, points, count_loop, Result, result, einval, e2big, no_fuel, or_return, idna_toascii_label,
  is_dot, last_label, name_loop, idna_toascii,
}
use libuv_analyse.HostName.Written.{AllAscii, Fits, put-Fits, FitsResult, counted-Fits}

label-Fits :
    (room : ℕ) (s out : List ℕ) → Fits room out → FitsResult room (idna_toascii_label room s out)
unfolding idna_toascii_label
label-Fits room s out f = counted-Fits (count_loop 0 0 (points s)) room (points s) out f

-- The number returned is that of the bytes.
Whole : ℕ → Result → Type 0
Whole room (result n out) = (n ≡ length out) × Fits room out
Whole room einval = Unit
Whole room e2big = Unit
Whole room no_fuel = Unit

or_return-Whole :
    (room : ℕ) (r : Result) (f : List ℕ → Result)
    → FitsResult room r
    → ((out : List ℕ) → Fits room out → Whole room (f out))
    → Whole room (or_return r f)
unfolding or_return Whole FitsResult
or_return-Whole room (result h out) f good keeps = keeps out good
or_return-Whole room einval f good keeps = tt
or_return-Whole room e2big f good keeps = tt
or_return-Whole room no_fuel f good keeps = tt

last_label-Whole : (room : ℕ) (s out : List ℕ) → Fits room out → Whole room (last_label room s out)
unfolding last_label Whole
last_label-Whole room s out f =
    let end : (o : List ℕ)
        → Fits room o
        → Whole room (result (length (put room 0 o)) (put room 0 o)) =
      λ o g. (refl, put-Fits room 0 o (omega arith) g) in
    by_if (Whole room) (length s == 0) (λ _. end out f)
      (λ _. or_return-Whole room (idna_toascii_label room s out) _ (label-Fits room s out f) end)

name_loop-Whole :
    (fuel room : ℕ) (s si out : List ℕ) → Fits room out → Whole room (name_loop fuel room s si out)
unfolding name_loop Whole
name_loop-Whole zero room s [] out f = last_label-Whole room s out f
name_loop-Whole zero room s (a ∷ st) out f = tt
name_loop-Whole (suc fuel) room s [] out f = last_label-Whole room s out f
name_loop-Whole (suc fuel) room s (a ∷ st) out f =
    let next = utf8_decode1 (a ∷ st) in
    by_if (Whole room) (next.0 == uint_max) (λ _. tt)
      (λ _.
        by_if (Whole room) (not (is_dot next.0)) (λ _. name_loop-Whole fuel room s next.1 out f)
          (λ _.
            or_return-Whole room (idna_toascii_label room (take (length s - length (a ∷ st)) s) out)
              _ (label-Fits room (take (length s - length (a ∷ st)) s) out f)
              (λ o g.
                name_loop-Whole fuel room next.1 next.1 (put room 46 o)
                  (put-Fits room 46 o (omega arith) g))))

-- Where uv__idna_toascii returns no error, it returns the number of the bytes it has written, which are no more
-- than the buffer has room for, and each is below 128: no index of the alphabet is outside of it.
pub idna_toascii-Fits :
    (room : ℕ) (s : List ℕ) (n : ℕ) (out : List ℕ)
    → idna_toascii room s ≡ result n out
    → (n ≡ length out) × Fits room out
unfolding idna_toascii Whole AllAscii
idna_toascii-Fits room s n out e =
    subst (Whole room) e
      (name_loop-Whole (length s) room s s [] (record { short = omega arith; ascii = tt }))
