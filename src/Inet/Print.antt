-- ===== src/Inet/Print.antt =====
-- uv_inet_ntop, inet_ntop4 and inet_ntop6 of libuv/src/inet.c. An address is the list of its bytes, the
-- destination the list of the bytes of the buffer.
use libuv_analyse.Base.{
  ℕ, ◌+◌, ◌-◌, ◌*◌, ◌^◌, bit_or, Bool, false, ◌&&◌, ◌||◌, not, List, [], ◌∷◌, ◌++◌, Option, none,
  some, length, get_or, take, drop, ltb, leb, ◌==◌, if◌then◌else◌,
}
use libuv_analyse.Strings.{strscpy}
use libuv_analyse.Inet.{
  Failure, enospc, eafnosupport, Family, inet, inet6, other_family, inet_addrstrlen,
  inet6_addrstrlen, dot, colon, decimal, hexadecimal, Written, written, failed,
}

-- "%u.%u.%u.%u" of the first four bytes.
unfoldable pub dotted : List ℕ → List ℕ
dotted src =
    decimal (get_or src 0 0)
    ++ (dot
        ∷ (decimal (get_or src 1 0)
            ++ (dot ∷ (decimal (get_or src 2 0) ++ (dot ∷ decimal (get_or src 3 0))))))

-- inet_ntop4: the string that it copies to `dst`. The text `tmp` holds is cut by snprintf to its size, `l` is
-- the length of the whole.
unfoldable pub inet_ntop4 : List ℕ → ℕ → Written
inet_ntop4 src size =
    let l = length (dotted src) in
    if l == 0 || leb size l
    then failed enospc
    else written (take (inet_addrstrlen - 1) (dotted src))

-- `best` and `cur`: `none` is the base -1.
pub record Run : Type 0 where
  pub base : Option ℕ
  pub len : ℕ

abbrev pub no_run : Run
no_run = record { base = none; len = 0 }

-- The words, `words[i / 2] |= (src[i] << ((1 - (i % 2)) << 3))` over the pairs of bytes.
unfoldable pub words_of : List ℕ → List ℕ
words_of [] = []
words_of (a ∷ []) = bit_or 0 (a * 2 ^ 8) ∷ []
words_of (a ∷ b ∷ src) = bit_or (bit_or 0 (a * 2 ^ 8)) b ∷ words_of src

-- `if (best.base == -1 || cur.len > best.len) best = cur`, where `cur.base` is not -1.
unfoldable pub longer : Run → Run → Run
longer best cur = elim cur.base [
  | none ↦ best
  | some c ↦ elim best.base [ none ↦ cur | some b ↦ if ltb best.len cur.len then cur else best ]
]

-- `if (cur.base == -1) cur.base = i, cur.len = 1; else cur.len++`.
unfoldable pub grown : Run → ℕ → Run
grown cur i = elim cur.base [
  | none ↦ record { base = some i; len = 1 }
  | some c ↦ record cur { len = cur.len + 1 }
]

-- The loop over the words from index `i` on, with what stands behind it.
unfoldable pub scan : Run → Run → ℕ → List ℕ → Run
unfolding longer grown
scan best cur i [] = longer best cur
scan best cur i (w ∷ ws) =
    if w == 0
    then scan best (grown cur i) (i + 1) ws
    else scan (longer best cur) (record cur { base = none }) (i + 1) ws

-- The run that `::` stands for.
unfoldable pub shorthand : List ℕ → Run
unfolding scan
shorthand ws =
    let best = scan no_run no_run 0 ws in
    if ltb best.len 2 then record best { base = none } else best

abbrev pub is_inside : Run → ℕ → Bool
is_inside best i = elim best.base [ none ↦ false | some b ↦ leb b i && ltb i (b + best.len) ]

abbrev pub is_base : Run → ℕ → Bool
is_base best i = elim best.base [ none ↦ false | some b ↦ i == b ]

-- "Is this address an encapsulated IPv4?"
abbrev pub is_encapsulated : Run → List ℕ → ℕ → Bool
is_encapsulated best all i =
    (i == 6)
    && is_base best 0
    && ((best.len == 6)
        || ((best.len == 7) && not (get_or all 7 0 == 1))
        || ((best.len == 5) && (get_or all 5 0 == 0xffff)))

-- What a word adds to the text: `:` at the start of the run and nothing inside, else a `:` in front, save of the
-- first word, and then the number.
abbrev pub mark : Run → ℕ → List ℕ
mark best i =
    if is_inside best i
    then (if is_base best i then colon ∷ [] else [])
    else (if i == 0 then [] else colon ∷ [])

-- What inet_ntop4 has printed behind `tp`.
unfoldable pub embed : List ℕ → Written → Written
embed out (failed e) = failed e
embed out (written text) = written (out ++ text)

-- The loop that formats the words from index `i` on, where `out` is the text before `tp`.
unfoldable pub format : Run → List ℕ → List ℕ → List ℕ → ℕ → List ℕ → Written
unfolding embed
format best src all out i [] = written out
format best src all out i (w ∷ ws) =
    let next = out ++ mark best i in
    let rest =
      format best src all (if is_inside best i then next else next ++ hexadecimal w) (i + 1) ws in
    if not (is_inside best i) && is_encapsulated best all i
    then embed next (inet_ntop4 (drop 12 src) (inet6_addrstrlen - length next))
    else rest

-- "Was it a trailing run of 0x00's?"
abbrev pub trail : Run → List ℕ
trail best = elim best.base [ none ↦ [] | some b ↦ if b + best.len == 8 then colon ∷ [] else [] ]

-- The text in `tmp`, its terminating 0 left out.
unfoldable pub long_text : List ℕ → Written
unfolding format
long_text src =
    let all = words_of src in
    let best = shorthand all in
    elim (format best src all [] 0 all) [
      | failed e ↦ failed e
      | written out ↦ written (out ++ trail best)
    ]

unfoldable pub inet_ntop6 : List ℕ → ℕ → Written
inet_ntop6 src size = elim (long_text src) [
  | failed e ↦ failed e
  | written out ↦ if ltb size (length out + 1) then failed enospc else written out
]

-- The result, and the buffer. `uv__strscpy(dst, tmp, size)` ends the printers.
pub data Outcome : Type 0 where
  ok : List ℕ → Outcome
  error : Failure → List ℕ → Outcome

unfoldable pub uv_inet_ntop : Family → List ℕ → List ℕ → ℕ → Outcome
uv_inet_ntop inet src dst size = elim (inet_ntop4 src size) [
  | failed e ↦ error e dst
  | written text ↦ ok (strscpy dst text size).1
]
uv_inet_ntop inet6 src dst size = elim (inet_ntop6 src size) [
  | failed e ↦ error e dst
  | written text ↦ ok (strscpy dst text size).1
]
uv_inet_ntop other_family src dst size = error eafnosupport dst
