-- ===== src/Inet/Parse.antt =====
-- uv_inet_pton, inet_pton4 and inet_pton6 of libuv/src/inet.c.
use libuv_analyse.Base.{
  ℕ, zero, suc, ◌+◌, ◌-◌, ◌*◌, ◌/◌, ◌%◌, ◌^◌, bit_and, bit_or, Bool, true, false, ◌&&◌, ◌||◌, List,
  [], ◌∷◌, ◌++◌, Option, none, some, length, get_or, set, replicate, ltb, leb, ◌==◌, if◌then◌else◌,
}
use libuv_analyse.Inet.{
  einval, eafnosupport, Family, inet, inet6, other_family, inet6_addrstrlen, dot, colon, percent,
  Written, written, failed,
}

-- `pch - digits`, where strchr finds the byte.
unfoldable pub decimal_value : ℕ → Option ℕ
decimal_value ch = if leb 48 ch && leb ch 57 then some (ch - 48) else none

-- `pch - xdigits`, in either of the two strings.
unfoldable pub hex_value : ℕ → Option ℕ
hex_value ch =
    if leb 48 ch && leb ch 57
    then some (ch - 48)
    else if leb 97 ch && leb ch 102
    then some (ch - 87)
    else if leb 65 ch && leb ch 70
    then some (ch - 55)
    else none

-- The locals of inet_pton4: `before` is what `tmp` holds in front of `tp`, `octet` is `*tp`.
pub record Quad : Type 0 where
  pub before : List ℕ
  pub octet : ℕ
  pub saw_digit : Bool
  pub octets : ℕ

abbrev pub new_quad : Quad
new_quad = record { before = []; octet = 0; saw_digit = false; octets = 0 }

-- A digit, or `none` where the body returns UV_EINVAL.
unfoldable pub take_digit : Quad → ℕ → Option Quad
take_digit q v =
    let nw = q.octet * 10 + v in
    if (q.saw_digit && (q.octet == 0)) || ltb 255 nw
    then none
    else if q.saw_digit
    then some (record q { octet = nw })
    else if ltb 4 (q.octets + 1)
    then none
    else some (record q { octet = nw; saw_digit = true; octets = q.octets + 1 })

-- Any other byte.
unfoldable pub take_other : Quad → ℕ → Option Quad
take_other q ch =
    if (ch == dot) && q.saw_digit
    then (if q.octets == 4
        then none
        else some (record q { before = q.before ++ (q.octet ∷ []); octet = 0; saw_digit = false }))
    else none

unfoldable pub take_byte : Quad → ℕ → Option Quad
unfolding take_digit take_other
take_byte q ch = elim (decimal_value ch) [ some v ↦ take_digit q v | none ↦ take_other q ch ]

-- The loop, and what stands behind it.
unfoldable pub pton4_loop : Quad → List ℕ → Written
pton4_loop q [] = if ltb q.octets 4 then failed einval else written (q.before ++ (q.octet ∷ []))
pton4_loop q (ch ∷ src) = elim (take_byte q ch) [ none ↦ failed einval | some r ↦ pton4_loop r src ]

unfoldable pub inet_pton4 : List ℕ → Written
unfolding pton4_loop
inet_pton4 src = pton4_loop new_quad src

-- The locals of inet_pton6: `out` is what `tmp` holds in front of `tp`, so that `tp` is its length; behind it,
-- `tmp` is 0.
pub record Long : Type 0 where
  pub out : List ℕ
  pub colonp : Option ℕ
  pub curtok : List ℕ
  pub seen_xdigits : ℕ
  pub val : ℕ

-- The two bytes of `val`.
abbrev pub val_bytes : ℕ → List ℕ
val_bytes val = bit_and (val / 2 ^ 8 % 256) 0xff ∷ bit_and (val % 256) 0xff ∷ []

-- What the body of the loop does next: go on, return UV_EINVAL, or leave the loop.
pub data Turn : Type 0 where
  goes_on : Long → Turn
  returns : Turn
  leaves : Long → Turn

unfoldable pub take_xdigit : Long → ℕ → Turn
take_xdigit l v =
    if ltb 4 (l.seen_xdigits + 1)
    then returns
    else goes_on
        (record l { val = bit_or (l.val * 2 ^ 4 % 2 ^ 32) v; seen_xdigits = l.seen_xdigits + 1 })

-- `:`, where `src` is the text behind it.
unfoldable pub take_colon : Long → List ℕ → Turn
take_colon l src =
    if l.seen_xdigits == 0
    then elim l.colonp [
      | some c ↦ returns
      | none ↦ goes_on (record l { curtok = src; colonp = some (length l.out) })
    ]
    else if length src == 0 || ltb 16 (length l.out + 2)
    then returns
    else goes_on
        (record l { curtok = src; out = l.out ++ val_bytes l.val; seen_xdigits = 0; val = 0 })

unfoldable pub take_dot : Long → Turn
take_dot l =
    if leb (length l.out + 4) 16
    then elim (inet_pton4 l.curtok) [
      | failed e ↦ returns
      | written quad ↦ leaves (record l { out = l.out ++ quad; seen_xdigits = 0 })
    ]
    else returns

unfoldable pub take_char : Long → ℕ → List ℕ → Turn
unfolding take_xdigit take_colon take_dot
take_char l ch src = elim (hex_value ch) [
  | some v ↦ take_xdigit l v
  | none ↦ if ch == colon then take_colon l src else if ch == dot then take_dot l else returns
]

-- The loop: `none` is the return of UV_EINVAL.
unfoldable pub pton6_loop : Long → List ℕ → Option Long
pton6_loop l [] = some l
pton6_loop l (ch ∷ src) = elim (take_char l ch src) [
  | returns ↦ none
  | leaves r ↦ some r
  | goes_on r ↦ pton6_loop r src
]

-- `if (seen_xdigits)` behind the loop.
unfoldable pub last_word : Long → Option (List ℕ)
last_word l =
    if l.seen_xdigits == 0
    then some l.out
    else if ltb 16 (length l.out + 2)
    then none
    else some (l.out ++ val_bytes l.val)

-- `for (i = 1; i <= n; i++) { endp[- i] = colonp[n - i]; colonp[n - i] = 0; }`, with `left` rounds to go, where
-- `left` is `n - i + 1` and `c` the index `colonp`.
unfoldable pub shift_loop : ℕ → ℕ → ℕ → List ℕ → List ℕ
shift_loop zero n c tmp = tmp
shift_loop (suc left) n c tmp =
    let i = n - left in
    shift_loop left n c (set (set tmp (16 - i) (get_or tmp (c + (n - i)) 0)) (c + (n - i)) 0)

-- What is done with the words read.
unfoldable pub close_gap : Option ℕ → List ℕ → Written
unfolding shift_loop
close_gap none out = if length out == 16 then written out else failed einval
close_gap (some c) out =
    let n = length out - c in
    if length out == 16
    then failed einval
    else written (shift_loop n n c (out ++ replicate (16 - length out) 0))

-- "Leading :: requires some special handling": the text from which the loop starts.
unfoldable pub skip_colon : List ℕ → Option (List ℕ)
skip_colon [] = some []
skip_colon (x ∷ []) = if x == colon then none else some (x ∷ [])
skip_colon (x ∷ y ∷ src) =
    if x == colon then (if y == colon then some (y ∷ src) else none) else some (x ∷ y ∷ src)

unfoldable pub inet_pton6 : List ℕ → Written
unfolding skip_colon pton6_loop last_word
inet_pton6 text = elim (skip_colon text) [
  | none ↦ failed einval
  | some src ↦
      elim (pton6_loop (record { out = []; colonp = none; curtok = src; seen_xdigits = 0; val = 0 })
        src) [
          | none ↦ failed einval
          | some l ↦ elim (last_word l) [ none ↦ failed einval | some out ↦ close_gap l.colonp out ]
        ]
]

-- `strchr(src, '%')`: the text in front of it.
pub before_percent : List ℕ → Option (List ℕ)
before_percent [] = none
before_percent (x ∷ s) =
    let rest = before_percent s in
    if x == percent then some [] else elim rest [ none ↦ none | some t ↦ some (x ∷ t) ]

-- `none` is a null `src` or `dst`.
unfoldable pub uv_inet_pton : Family → Option (List ℕ) → Written
unfolding before_percent
uv_inet_pton af none = failed einval
uv_inet_pton inet (some src) = inet_pton4 src
uv_inet_pton inet6 (some src) = elim (before_percent src) [
  | none ↦ inet_pton6 src
  | some s ↦ if ltb (inet6_addrstrlen - 1) (length s) then failed einval else inet_pton6 s
]
uv_inet_pton other_family (some src) = failed eafnosupport
