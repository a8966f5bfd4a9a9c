-- ===== src/HostName/Total.antt =====
-- uv__idna_toascii (libuv/src/idna.c) ends on any bytes.
use libuv_analyse.Base.{
  ℕ, zero, suc, ◌+◌, ◌-◌, ◌%◌, ◌^◌, ◌≤◌, ◌<◌, ◌≡◌, ◌≢◌, subst, ap, inl, inr, by_if, not, List, [],
  ◌∷◌, Option, none, some, length, length-append, length-take, take, ltb, ◌==◌, if◌then◌else◌,
  arith,
}
use libuv_analyse.Utf8.{uint_max, utf8_decode1}
use libuv_analyse.Utf8.Legal.{decode1-IsResult}
use libuv_analyse.HostName.{
  put, points, points_loop, counted, count_loop, label_text, Result, result, einval, e2big, no_fuel,
  or_return, idna_toascii_label, is_dot, last_label, name_loop, idna_toascii,
}
use libuv_analyse.HostName.Least.{from, AllPoints}
use libuv_analyse.HostName.Ends.{Ends, encode_loop-Ends}

-- The decoder gives words.
AllWords : List ℕ → Type 0
AllWords [] = Unit
AllWords (c ∷ cs) = (c ≤ uint_max) × AllWords cs

decoded :
    (a : ℕ) (s : List ℕ)
    → ((utf8_decode1 (a ∷ s)).0 ≤ uint_max) × (length (utf8_decode1 (a ∷ s)).1 < length (a ∷ s))
decoded a s =
    let (value, (front, whole, some_byte, few)) = decode1-IsResult a s in
    let split = length-append front (utf8_decode1 (a ∷ s)).1 in
    (
      elim value [
        | inl e ↦ omega (arith, e)
        | inr (inl low) ↦ omega (arith, low)
        | inr (inr high) ↦ omega (arith, high.1)
      ],
      omega (arith, ap (λ (t : List ℕ). length t) whole, split, some_byte),
    )

points_loop-AllWords :
    (fuel : ℕ) (s : List ℕ) → AllWords (points_loop fuel s) × (length (points_loop fuel s) ≤ fuel)
unfolding points_loop AllWords
points_loop-AllWords zero s = (tt, omega arith)
points_loop-AllWords (suc fuel) [] = (tt, omega arith)
points_loop-AllWords (suc fuel) (a ∷ s) =
    let (words, short) = points_loop-AllWords fuel (utf8_decode1 (a ∷ s)).1 in
    (((decoded a s).0, words), omega (arith, short))

Counted : ℕ → List ℕ → Option (ℕ × ℕ) → Type 0
Counted todo cs none = Unit
Counted todo cs (some (h, t)) = AllPoints cs × (t ≡ todo + from 128 cs)

longer :
    (todo todo' c : ℕ) (cs : List ℕ) (o : Option (ℕ × ℕ))
    → c < uint_max
    → todo' ≡ (if ltb c 128 then todo else todo + 1)
    → Counted todo' cs o
    → Counted todo (c ∷ cs) o
unfolding Counted AllPoints from
longer todo todo' c cs none small e counts = tt
longer todo todo' c cs (some (h, t)) small e counts =
    ((small, counts.0), ground (arith, e, counts.1))

count_loop-Counted :
    (h todo : ℕ) (cs : List ℕ)
    → AllWords cs
    → todo + length cs < 2 ^ 32
    → Counted todo cs (count_loop h todo cs)
unfolding count_loop Counted AllWords AllPoints from
count_loop-Counted h todo [] words room = (tt, omega arith)
count_loop-Counted h todo (c ∷ cs) words room =
    by_if (Counted todo (c ∷ cs)) (c == uint_max) (λ _. tt)
      (λ legal.
        let small : c < uint_max = ground (arith, legal, words.0) in
        by_if (Counted todo (c ∷ cs)) (ltb c 128)
          (λ low.
            longer todo todo c cs _ small (ground (arith, low))
              (count_loop-Counted ((h + 1) % 2 ^ 32) todo cs words.1 (omega (arith, room))))
          (λ high.
            let next : (todo + 1) % 2 ^ 32 ≡ todo + 1 = omega (arith, room) in
            longer todo ((todo + 1) % 2 ^ 32) c cs _ small (ground (arith, high, next))
              (count_loop-Counted h ((todo + 1) % 2 ^ 32) cs words.1 (omega (arith, room, next)))))

counted-Ends :
    (o : Option (ℕ × ℕ)) (room : ℕ) (cs out : List ℕ)
    → Counted 0 cs o
    → Ends (counted o room cs out)
unfolding counted label_text Counted Ends
counted-Ends none room cs out counts = tt
counted-Ends (some (h, todo)) room cs out counts =
    by_if Ends (todo == 0) (λ _. tt)
      (λ _. encode_loop-Ends todo room cs _ counts.0 (omega (arith, counts.1)) (omega arith))

label-Ends : (room : ℕ) (s out : List ℕ) → length s < 2 ^ 32 → Ends (idna_toascii_label room s out)
unfolding idna_toascii_label points
label-Ends room s out room_left =
    let (words, short) = points_loop-AllWords (length s) s in
    counted-Ends (count_loop 0 0 (points s)) room (points s) out
      (count_loop-Counted 0 0 (points s) words (omega (arith, short, room_left)))

or_return-Ends :
    (r : Result) (f : List ℕ → Result)
    → Ends r
    → ((out : List ℕ) → Ends (f out))
    → Ends (or_return r f)
unfolding or_return Ends
or_return-Ends (result h out) f good keeps = keeps out
or_return-Ends einval f good keeps = tt
or_return-Ends e2big f good keeps = tt
or_return-Ends no_fuel f good keeps = absurd good

last_label-Ends : (room : ℕ) (s out : List ℕ) → length s < 2 ^ 32 → Ends (last_label room s out)
unfolding last_label Ends
last_label-Ends room s out short =
    by_if Ends (length s == 0) (λ _. tt)
      (λ _.
        or_return-Ends (idna_toascii_label room s out) _ (label-Ends room s out short) (λ _. tt))

name_loop-Ends :
    (fuel room : ℕ) (s si out : List ℕ)
    → length s < 2 ^ 32
    → length si < 2 ^ 32
    → length si ≤ fuel
    → Ends (name_loop fuel room s si out)
unfolding name_loop Ends
name_loop-Ends zero room s [] out short _ enough = last_label-Ends room s out short
name_loop-Ends zero room s (a ∷ st) out short _ enough = absurd (omega (arith, enough))
name_loop-Ends (suc fuel) room s [] out short _ enough = last_label-Ends room s out short
name_loop-Ends (suc fuel) room s (a ∷ st) out short whole enough =
    let next = utf8_decode1 (a ∷ st) in
    let less = (decoded a st).1 in
    let label = take (length s - length (a ∷ st)) s in
    let cut : length label < 2 ^ 32 =
      omega (arith, length-take (length s - length (a ∷ st)) s, short) in
    by_if Ends (next.0 == uint_max) (λ _. tt)
      (λ _.
        by_if Ends (not (is_dot next.0))
          (λ _.
            name_loop-Ends fuel room s next.1 out short (omega (arith, less, whole))
              (omega (arith, less, enough)))
          (λ _.
            or_return-Ends (idna_toascii_label room label out) _ (label-Ends room label out cut)
              (λ o.
                name_loop-Ends fuel room next.1 next.1 (put room 46 o) (omega (arith, less, whole))
                  (omega (arith, less, whole)) (omega (arith, less, enough)))))

-- All loops of uv__idna_toascii and uv__idna_toascii_label end within the fuel given, on any name of fewer than
-- 2 ^ 32 bytes, legal or not, and with any buffer: each round of the encoder writes a code point at least, and
-- the digits of a 32-bit number run out.
pub idna_toascii-Ends : (room : ℕ) (s : List ℕ) → length s < 2 ^ 32 → idna_toascii room s ≢ no_fuel
unfolding idna_toascii Ends
idna_toascii-Ends room s short e =
    subst Ends e (name_loop-Ends (length s) room s s [] short short (omega arith))
