-- ===== src/HostName/Written.antt =====
-- What uv__idna_toascii (libuv/src/idna.c) writes stays inside the buffer and is ASCII.
use native.Mathlib.Nat.{mod-lt}
use libuv_analyse.Base.{
  ℕ, zero, suc, ◌+◌, ◌-◌, ◌/◌, ◌%◌, ◌^◌, ◌≤◌, ◌<◌, ◌≡◌, refl, Bool, true, ◌&&◌, by_if, List, [],
  ◌∷◌, ◌++◌, Option, none, some, length, length-append, get_or, ltb, ◌==◌, arith,
}
use libuv_analyse.Utf8.{uint_max}
use libuv_analyse.HostName.{
  and_then, finish, counted, rescaled, written_point, put, alphabet, letter, ascii_loop, least,
  threshold, digits, rescale, Encoder, digits_fuel, rescale_fuel, halved, write_point, Turn,
  goes_on, too_big, runs_out, or_runs_out, visit, visit_loop, round, Result, result, einval, e2big,
  no_fuel, encode_loop, label_text,
}

-- Every element is below 128.
unfoldable pub AllAscii : List ℕ → Type 0
AllAscii [] = Unit
AllAscii (x ∷ xs) = (x < 128) × AllAscii xs

-- The bytes are in the room, and are ASCII.
pub record Fits (room : ℕ) (out : List ℕ) : Type 0 where
  pub short : length out ≤ room
  pub ascii : AllAscii out

AllAscii-append : (xs ys : List ℕ) → AllAscii xs → AllAscii ys → AllAscii (xs ++ ys)
unfolding AllAscii
AllAscii-append [] ys hx hy = hy
AllAscii-append (x ∷ xs) ys hx hy = (hx.0, AllAscii-append xs ys hx.1 hy)

pub put-Fits : (room c : ℕ) (out : List ℕ) → c < 128 → Fits room out → Fits room (put room c out)
unfolding put AllAscii
put-Fits room c out byte f =
    by_if (Fits room) (ltb (length out) room)
      (λ free. record {
        short = ground (arith, free, length-append out (c ∷ []));
        ascii = AllAscii-append out (c ∷ []) f.ascii (byte, tt);
      })
      (λ _. f)

all_ascii : List ℕ → Bool
all_ascii [] = true
all_ascii (x ∷ xs) = ltb x 128 && all_ascii xs

get_or-ascii : (xs : List ℕ) (i : ℕ) → all_ascii xs ≡ true → i < length xs → get_or xs i 256 < 128
unfolding all_ascii
get_or-ascii [] i all h = absurd (omega (arith, h))
get_or-ascii (x ∷ xs) zero all h = ground (arith, all)
get_or-ascii (x ∷ xs) (suc i) all h = get_or-ascii xs i (ground (arith, all)) (omega (arith, h))

letter_ascii : (t : ℕ) → t < 36 → letter t < 128
unfolding all_ascii
letter_ascii t h = get_or-ascii alphabet t refl (omega (arith, h))

ascii_loop-Fits :
    (room h x : ℕ) (out cs : List ℕ) → Fits room out → Fits room (ascii_loop room h x out cs)
unfolding ascii_loop
ascii_loop-Fits room h x out [] f = f
ascii_loop-Fits room h x out (c ∷ cs) f =
    by_if (Fits room) (ltb 127 c) (λ _. ascii_loop-Fits room h x out cs f)
      (λ low.
        let one : Fits room (put room c out) = put-Fits room c out (ground (arith, low)) f in
        by_if (Fits room) (x + 1 == h) (λ _. one)
          (λ _. ascii_loop-Fits room h (x + 1) (put room c out) cs one))

pub threshold_range : (k bias : ℕ) → (1 ≤ threshold k bias) × (threshold k bias ≤ 26)
threshold_range k bias = (ground arith, ground arith)

digit_range : (q t : ℕ) → 1 ≤ t → t ≤ 26 → t + (q - t) % (36 - t) < 36
digit_range q t low high = omega (arith, mod-lt (q - t) {m = 36 - t} (omega (arith, high)))

FitsDigits : ℕ → Option (ℕ × List ℕ) → Type 0
FitsDigits room none = Unit
FitsDigits room (some (q, out)) = (q < 36) × Fits room out

digits-Fits :
    (fuel room bias k q : ℕ) (out : List ℕ)
    → Fits room out
    → FitsDigits room (digits fuel room bias k q out)
unfolding digits FitsDigits
digits-Fits zero room bias k q out f = tt
digits-Fits (suc fuel) room bias k q out f =
    let (low, high) = threshold_range k bias in
    let t = threshold k bias in
    by_if (FitsDigits room) (ltb q t) (λ last. (ground (arith, last, high), f))
      (λ _. digits-Fits fuel room bias (k + 36) ((q - t) / (36 - t)) _ (
        put-Fits room (letter (t + (q - t) % (36 - t))) out
          (letter_ascii (t + (q - t) % (36 - t)) (digit_range q t low high)) f))

FitsTurn : ℕ → Turn → Type 0
FitsTurn room (goes_on e) = Fits room e.out
FitsTurn room too_big = Unit
FitsTurn room runs_out = Unit

rescaled-Fits :
    (room : ℕ) (e : Encoder) (q : ℕ) (out : List ℕ) (o : Option (ℕ × ℕ))
    → q < 36
    → Fits room out
    → FitsTurn room (or_runs_out (rescaled room e q out o))
unfolding rescaled or_runs_out FitsTurn
rescaled-Fits room e q out none small f = tt
rescaled-Fits room e q out (some (delta, bias)) small f =
    put-Fits room (letter q) out (letter_ascii q small) f

written_point-Fits :
    (room : ℕ) (e : Encoder) (o : Option (ℕ × List ℕ))
    → FitsDigits room o
    → FitsTurn room (or_runs_out (written_point room e o))
unfolding written_point or_runs_out FitsTurn FitsDigits
written_point-Fits room e none f = tt
written_point-Fits room e (some (q, out)) f =
    rescaled-Fits room e q out (rescale rescale_fuel (halved e) 0) f.0 f.1

visit-Fits : (room c : ℕ) (e : Encoder) → Fits room e.out → FitsTurn room (visit room c e)
unfolding visit write_point FitsTurn
visit-Fits room c e f =
    by_if (FitsTurn room) (ltb c e.n)
      (λ _. by_if (FitsTurn room) ((e.delta + 1) % 2 ^ 32 == 0) (λ _. tt) (λ _. f))
      (λ _.
        by_if (FitsTurn room) (c == e.n)
          (λ _.
            written_point-Fits room e _ (digits-Fits digits_fuel room e.bias 36 e.delta e.out f))
          (λ _. f))

and_then-Fits :
    (room : ℕ) (t : Turn) (f : Encoder → Turn)
    → FitsTurn room t
    → ((e : Encoder) → Fits room e.out → FitsTurn room (f e))
    → FitsTurn room (and_then t f)
unfolding and_then FitsTurn
and_then-Fits room (goes_on e) f good keeps = keeps e good
and_then-Fits room too_big f good keeps = tt
and_then-Fits room runs_out f good keeps = tt

visit_loop-Fits :
    (room : ℕ) (cs : List ℕ) (e : Encoder) → Fits room e.out → FitsTurn room (visit_loop room cs e)
unfolding visit_loop FitsTurn
visit_loop-Fits room [] e f = f
visit_loop-Fits room (c ∷ cs) e f =
    and_then-Fits room (visit room c e) (λ g. visit_loop room cs g) (visit-Fits room c e f)
      (λ g good. visit_loop-Fits room cs g good)

round-Fits :
    (room : ℕ) (cs : List ℕ) (e : Encoder) → Fits room e.out → FitsTurn room (round room cs e)
unfolding round FitsTurn
round-Fits room cs e f =
    by_if (FitsTurn room)
      (ltb ((uint_max - e.delta) / ((e.h + 1) % 2 ^ 32)) (least e.n uint_max cs - e.n)) (λ _. tt)
      (λ _. and_then-Fits room _ _ (visit_loop-Fits room cs _ f) (λ g good. good))

unfoldable pub FitsResult : ℕ → Result → Type 0
FitsResult room (result n out) = Fits room out
FitsResult room einval = Unit
FitsResult room e2big = Unit
FitsResult room no_fuel = Unit

finish-Fits :
    (room : ℕ) (t : Turn) (f : Encoder → Result)
    → FitsTurn room t
    → ((e : Encoder) → Fits room e.out → FitsResult room (f e))
    → FitsResult room (finish t f)
unfolding finish FitsTurn FitsResult
finish-Fits room (goes_on e) f good keeps = keeps e good
finish-Fits room too_big f good keeps = tt
finish-Fits room runs_out f good keeps = tt

encode_loop-Fits :
    (fuel room : ℕ) (cs : List ℕ) (e : Encoder)
    → Fits room e.out
    → FitsResult room (encode_loop fuel room cs e)
unfolding encode_loop FitsResult
encode_loop-Fits zero room cs e f = by_if (FitsResult room) (e.todo == 0) (λ _. f) (λ _. tt)
encode_loop-Fits (suc fuel) room cs e f =
    by_if (FitsResult room) (e.todo == 0) (λ _. f)
      (λ _.
        finish-Fits room (round room cs e) _ (round-Fits room cs e f)
          (λ g good. encode_loop-Fits fuel room cs g good))

label_text-Fits :
    (room : ℕ) (cs : List ℕ) (h todo : ℕ) (out : List ℕ)
    → Fits room out
    → FitsResult room (label_text room cs h todo out)
unfolding label_text FitsResult
label_text-Fits room cs h todo out f =
    let start =
      by_if (Fits room) (ltb 0 todo)
        (λ _. put-Fits room 45 _ (omega arith) (
          put-Fits room 45 _ (omega arith)
            (put-Fits room 110 _ (omega arith) (put-Fits room 120 out (omega arith) f))))
        (λ _. f) in
    let basic = ascii_loop-Fits room h 0 _ cs start in
    by_if (FitsResult room) (todo == 0) (λ _. basic)
      (λ _.
        encode_loop-Fits todo room cs _
          (by_if (Fits room) (ltb 0 h) (λ _. put-Fits room 45 _ (omega arith) basic) (λ _. basic)))

pub counted-Fits :
    (o : Option (ℕ × ℕ)) (room : ℕ) (cs out : List ℕ)
    → Fits room out
    → FitsResult room (counted o room cs out)
unfolding counted FitsResult
counted-Fits none room cs out f = tt
counted-Fits (some (h, todo)) room cs out f = label_text-Fits room cs h todo out f
