-- ===== src/HostName.antt =====
-- Host names: uv__idna_toascii_label and uv__idna_toascii of libuv/src/idna.c, which write a name of UTF-8 in the
-- ASCII of IDNA and punycode. `*d` and `de` are the bytes written so far and how many there is room for.
-- The result of uv__idna_toascii_label is an `int`: a label of 2 ^ 31 bytes or more, whose count it cannot
-- hold, is left aside.
pub mod Written
pub mod Buffer
pub mod Least
pub mod Ends
pub mod Total
mod Tests
use libuv_analyse.Base.{
  ℕ, zero, suc, ◌+◌, ◌-◌, ◌*◌, ◌/◌, ◌%◌, ◌^◌, Bool, true, false, ◌&&◌, ◌||◌, not, List, [], ◌∷◌,
  ◌++◌, Option, none, some, length, get_or, take, ltb, leb, ◌==◌, if◌then◌else◌,
}
use libuv_analyse.Utf8.{uint_max, utf8_decode1}

-- `if (*d < de) *(*d)++ = c`.
pub put : ℕ → ℕ → List ℕ → List ℕ
put room c out = if ltb (length out) room then out ++ (c ∷ []) else out

-- `alphabet[t]`; a read outside of the array would give 256 here, which is no byte.
abbrev pub lower_case : List ℕ
lower_case =
    97 ∷ 98 ∷ 99 ∷ 100 ∷ 101 ∷ 102 ∷ 103 ∷ 104 ∷ 105 ∷ 106 ∷ 107 ∷ 108 ∷ 109 ∷ 110 ∷ 111 ∷ 112 ∷ 113
    ∷ 114 ∷ 115 ∷ 116 ∷ 117 ∷ 118 ∷ 119 ∷ 120 ∷ 121 ∷ 122 ∷ []

abbrev pub alphabet : List ℕ
alphabet = lower_case ++ (48 ∷ 49 ∷ 50 ∷ 51 ∷ 52 ∷ 53 ∷ 54 ∷ 55 ∷ 56 ∷ 57 ∷ [])

abbrev pub letter : ℕ → ℕ
letter t = get_or alphabet t 256

-- The values of `c` in a loop `while (s < se) { c = uv__utf8_decode1(&s, se); ... }`. Each call takes a byte at
-- least, so as many rounds as there are bytes are enough.
pub points_loop : ℕ → List ℕ → List ℕ
points_loop zero s = []
points_loop (suc fuel) [] = []
points_loop (suc fuel) (a ∷ s) = let next = utf8_decode1 (a ∷ s) in next.0 ∷ points_loop fuel next.1

unfoldable pub points : List ℕ → List ℕ
unfolding points_loop
points s = points_loop (length s) s

-- The loop that counts, to `h` and `todo`; `none` is the return of UV_EINVAL.
pub count_loop : ℕ → ℕ → List ℕ → Option (ℕ × ℕ)
count_loop h todo [] = some (h, todo)
count_loop h todo (c ∷ cs) =
    let ascii = count_loop ((h + 1) % 2 ^ 32) todo cs in
    let others = count_loop h ((todo + 1) % 2 ^ 32) cs in
    if c == uint_max then none else if ltb c 128 then ascii else others

-- "Write ASCII characters."
pub ascii_loop : ℕ → ℕ → ℕ → List ℕ → List ℕ → List ℕ
unfolding put
ascii_loop room h x out [] = out
ascii_loop room h x out (c ∷ cs) =
    let skipped = ascii_loop room h x out cs in
    let taken = ascii_loop room h (x + 1) (put room c out) cs in
    if ltb 127 c then skipped else if x + 1 == h then put room c out else taken

-- The loop that looks for the least code point from `n` on, in `m`.
pub least : ℕ → ℕ → List ℕ → ℕ
least n m [] = m
least n m (c ∷ cs) = least n (if leb n c && ltb c m then c else m) cs

abbrev pub threshold : ℕ → ℕ → ℕ
threshold k bias = if ltb bias k then (if ltb 26 (k - bias) then 26 else k - bias) else 1

-- The loop over `k` and `q`: the last `q`, and the bytes written. `none` is the end of the fuel.
unfoldable pub digits : ℕ → ℕ → ℕ → ℕ → ℕ → List ℕ → Option (ℕ × List ℕ)
unfolding put
digits zero room bias k q out = none
digits (suc fuel) room bias k q out =
    let t = threshold k bias in
    let rest =
      digits fuel room bias (k + 36) ((q - t) / (36 - t))
        (put room (letter (t + (q - t) % (36 - t))) out) in
    if ltb q t then some (q, out) else rest

-- `for (bias = 0; delta > 35 * 26 / 2; bias += 36) delta /= 35`.
unfoldable pub rescale : ℕ → ℕ → ℕ → Option (ℕ × ℕ)
rescale zero delta bias = none
rescale (suc fuel) delta bias =
    let rest = rescale fuel (delta / 35) (bias + 36) in
    if ltb (35 * 26 / 2) delta then rest else some (delta, bias)

-- The locals of the encoder.
pub record Encoder : Type 0 where
  pub n : ℕ
  pub bias : ℕ
  pub delta : ℕ
  pub h : ℕ
  pub todo : ℕ
  pub first : Bool
  pub out : List ℕ

-- The fuel of the two loops: `q` and `delta` have 32 bits, and a round divides the one by 10 at least, the other
-- by 35.
abbrev pub digits_fuel : ℕ
digits_fuel = 11

abbrev pub rescale_fuel : ℕ
rescale_fuel = 7

-- `delta` before it is scaled, after a code point has been written.
abbrev pub halved : Encoder → ℕ
halved e =
    let delta = if e.first then e.delta / 2 / 350 else e.delta / 2 in
    (delta + delta / ((e.h + 1) % 2 ^ 32)) % 2 ^ 32

pub rescaled : ℕ → Encoder → ℕ → List ℕ → Option (ℕ × ℕ) → Option Encoder
unfolding put
rescaled room e q out none = none
rescaled room e q out (some (delta, bias)) = some (record {
  n = e.n;
  bias = bias + 36 * delta / (delta + 38);
  delta = 0;
  h = (e.h + 1) % 2 ^ 32;
  todo = e.todo - 1;
  first = false;
  out = put room (letter q) out;
})

pub written_point : ℕ → Encoder → Option (ℕ × List ℕ) → Option Encoder
unfolding rescaled
written_point room e none = none
written_point room e (some (q, out)) = rescaled room e q out (rescale rescale_fuel (halved e) 0)

-- What is done with a code point `n`, after the test `c != n`.
pub write_point : ℕ → Encoder → Option Encoder
unfolding written_point
write_point room e = written_point room e (digits digits_fuel room e.bias 36 e.delta e.out)

-- What a part of the function does next: go on, return an error, or stay without fuel.
pub data Turn : Type 0 where
  goes_on : Encoder → Turn
  too_big : Turn
  runs_out : Turn

pub or_runs_out : Option Encoder → Turn
or_runs_out none = runs_out
or_runs_out (some e) = goes_on e

pub and_then : Turn → (Encoder → Turn) → Turn
and_then (goes_on e) f = f e
and_then too_big f = too_big
and_then runs_out f = runs_out

-- The body of the second inner loop.
pub visit : ℕ → ℕ → Encoder → Turn
unfolding write_point or_runs_out
visit room c e =
    let delta = (e.delta + 1) % 2 ^ 32 in
    if ltb c e.n
    then (if delta == 0 then too_big else goes_on (record e { delta = delta }))
    else if c == e.n
    then or_runs_out (write_point room e)
    else goes_on e

pub visit_loop : ℕ → List ℕ → Encoder → Turn
unfolding visit and_then
visit_loop room [] e = goes_on e
visit_loop room (c ∷ cs) e = and_then (visit room c e) (λ f. visit_loop room cs f)

-- The body of the outer loop, where `cs` are the code points of the label.
pub round : ℕ → List ℕ → Encoder → Turn
unfolding least visit_loop and_then
round room cs e =
    let m = least e.n uint_max cs in
    let x = m - e.n in
    let y = (e.h + 1) % 2 ^ 32 in
    if ltb ((uint_max - e.delta) / y) x
    then too_big
    else and_then (visit_loop room cs (record e { delta = (e.delta + x * y) % 2 ^ 32; n = m }))
        (λ f. goes_on (record f { delta = (f.delta + 1) % 2 ^ 32; n = (f.n + 1) % 2 ^ 32 }))

-- What the functions return, with the bytes written.
pub data Result : Type 0 where
  result : ℕ → List ℕ → Result
  einval : Result
  e2big : Result
  no_fuel : Result

pub finish : Turn → (Encoder → Result) → Result
finish (goes_on e) f = f e
finish too_big f = e2big
finish runs_out f = no_fuel

-- `if (rc < 0) return rc`.
pub or_return : Result → (List ℕ → Result) → Result
or_return (result h out) f = f out
or_return einval f = einval
or_return e2big f = e2big
or_return no_fuel f = no_fuel

-- `while (todo > 0)`.
pub encode_loop : ℕ → ℕ → List ℕ → Encoder → Result
unfolding round finish
encode_loop zero room cs e = if e.todo == 0 then result 0 e.out else no_fuel
encode_loop (suc fuel) room cs e =
    if e.todo == 0
    then result 0 e.out
    else finish (round room cs e) (λ f. encode_loop fuel room cs f)

-- The label behind its counts. Each round of the encoder writes a code point at least, so `todo` rounds are
-- enough.
pub label_text : ℕ → List ℕ → ℕ → ℕ → List ℕ → Result
unfolding put ascii_loop encode_loop
label_text room cs h todo out =
    let start =
      if ltb 0 todo then put room 45 (put room 45 (put room 110 (put room 120 out))) else out in
    let basic = ascii_loop room h 0 start cs in
    if todo == 0
    then result h basic
    else encode_loop todo room cs (record {
      n = 128;
      bias = 72;
      delta = 0;
      h = h;
      todo = todo;
      first = true;
      out = if ltb 0 h then put room 45 basic else basic;
    })

pub counted : Option (ℕ × ℕ) → ℕ → List ℕ → List ℕ → Result
unfolding label_text
counted none room cs out = einval
counted (some (h, todo)) room cs out = label_text room cs h todo out

unfoldable pub idna_toascii_label : ℕ → List ℕ → List ℕ → Result
unfolding count_loop counted
idna_toascii_label room s out = counted (count_loop 0 0 (points s)) room (points s) out

-- `.` and the three other dots.
abbrev pub is_dot : ℕ → Bool
is_dot c = (c == 46) || (c == 0x3002) || (c == 0xFF0E) || (c == 0xFF61)

-- What stands behind the loop.
unfoldable pub last_label : ℕ → List ℕ → List ℕ → Result
unfolding put or_return
last_label room s out =
    let end = λ (o : List ℕ). result (length (put room 0 o)) (put room 0 o) in
    if length s == 0 then end out else or_return (idna_toascii_label room s out) end

-- The loop over the name, where `s` is the rest from the start of the label and `si` the rest to read: the label
-- is what stands between `s` and `st`. Each call of the decoder takes a byte at least.
pub name_loop : ℕ → ℕ → List ℕ → List ℕ → List ℕ → Result
unfolding put or_return
name_loop zero room s [] out = last_label room s out
name_loop zero room s (a ∷ st) out = no_fuel
name_loop (suc fuel) room s [] out = last_label room s out
name_loop (suc fuel) room s (a ∷ st) out =
    let next = utf8_decode1 (a ∷ st) in
    if next.0 == uint_max
    then einval
    else if not (is_dot next.0)
    then name_loop fuel room s next.1 out
    else or_return (idna_toascii_label room (take (length s - length (a ∷ st)) s) out)
        (λ o. name_loop fuel room next.1 next.1 (put room 46 o))

-- The number of the bytes written, and these.
unfoldable pub idna_toascii : ℕ → List ℕ → Result
unfolding name_loop
idna_toascii room s = name_loop (length s) room s s []
