-- ===== src/Inet/Tests.antt =====
-- Runs of libuv/src/inet.c.
use libuv_analyse.Base.{
  ℕ, ◌≡◌, refl, List, [], ◌∷◌, ◌++◌, some, replicate, length, ltb, if◌then◌else◌, ◌+◌, ◌-◌, ◌≤◌,
  arith,
}
use libuv_analyse.Inet.Dotted.{inet_pton4-dotted}
use libuv_analyse.Inet.Octets.{AllBytes}
use libuv_analyse.Inet.Canonical.{IsDotted, inet_pton4-IsDotted}
use libuv_analyse.Inet.Gap.{close_gap-zeros}
use libuv_analyse.Inet.Room.{inet_ntop6-fits}
use libuv_analyse.Inet.{hexadecimal, written, failed, einval, enospc, decimal}
use libuv_analyse.Inet.Print.{
  inet_ntop4, dotted, inet_ntop6, long_text, words_of, shorthand, scan, longer, grown, format,
  embed,
}
use libuv_analyse.Inet.Parse.{
  take_char, hex_value, take_byte, decimal_value, close_gap, inet_pton4, inet_pton6,
}

-- fe80::8:0:0:1, as bytes.
abbrev link_local : List ℕ
link_local = 0xfe ∷ 0x80 ∷ 0 ∷ 0 ∷ 0 ∷ 0 ∷ 0 ∷ 0 ∷ 0 ∷ 8 ∷ 0 ∷ 0 ∷ 0 ∷ 0 ∷ 0 ∷ 1 ∷ []

abbrev link_local_text : List ℕ
link_local_text = 102 ∷ 101 ∷ 56 ∷ 48 ∷ 58 ∷ 58 ∷ 56 ∷ 58 ∷ 48 ∷ 58 ∷ 48 ∷ 58 ∷ 49 ∷ []

long_text_run : inet_ntop6 link_local 14 ≡ written link_local_text
unfolding inet_ntop6 long_text words_of shorthand scan longer grown format hexadecimal embed
    inet_ntop4 dotted decimal
long_text_run = refl

long_text_short : inet_ntop6 link_local 13 ≡ failed enospc
unfolding inet_ntop6 long_text words_of shorthand scan longer grown format hexadecimal embed
    inet_ntop4 dotted decimal
long_text_short = refl

parse_run : inet_pton6 link_local_text ≡ written link_local
unfolding inet_pton6 take_char hex_value inet_pton4 take_byte decimal_value close_gap
parse_run = refl

-- ::ffff:1.2.3.4
abbrev mapped : List ℕ
mapped = replicate 10 0 ++ (0xff ∷ 0xff ∷ 1 ∷ 2 ∷ 3 ∷ 4 ∷ [])

abbrev mapped_text : List ℕ
mapped_text = 58 ∷ 58 ∷ 102 ∷ 102 ∷ 102 ∷ 102 ∷ 58 ∷ 49 ∷ 46 ∷ 50 ∷ 46 ∷ 51 ∷ 46 ∷ 52 ∷ []

mapped_run : inet_ntop6 mapped 46 ≡ written mapped_text
unfolding inet_ntop6 long_text words_of shorthand scan longer grown format hexadecimal embed
    inet_ntop4 dotted decimal
mapped_run = refl

mapped_parse : inet_pton6 mapped_text ≡ written mapped
unfolding inet_pton6 take_char hex_value inet_pton4 take_byte decimal_value close_gap
mapped_parse = refl

-- 192.0.2.10
abbrev quad : List ℕ
quad = 192 ∷ 0 ∷ 2 ∷ 10 ∷ []

inet_pton4-dotted_example : inet_pton4 (dotted quad) ≡ written quad
inet_pton4-dotted_example =
    inet_pton4-dotted 192 0 2 10 (omega arith) (omega arith) (omega arith) (omega arith)

abbrev quad_text : List ℕ
quad_text = 49 ∷ 57 ∷ 50 ∷ 46 ∷ 48 ∷ 46 ∷ 50 ∷ 46 ∷ 49 ∷ 48 ∷ []

quad_parse : inet_pton4 quad_text ≡ written quad
unfolding inet_pton4 take_byte decimal_value
quad_parse = refl

inet_pton4-IsDotted_example : IsDotted quad_text quad
inet_pton4-IsDotted_example = inet_pton4-IsDotted quad_text quad quad_parse

-- 1.2.3.04
zero_in_front : inet_pton4 (49 ∷ 46 ∷ 50 ∷ 46 ∷ 51 ∷ 46 ∷ 48 ∷ 52 ∷ []) ≡ failed einval
unfolding inet_pton4 take_byte decimal_value
zero_in_front = refl

abbrev in_front : List ℕ
in_front = 0xfe ∷ 0x80 ∷ []

abbrev behind : List ℕ
behind = 7 ∷ 8 ∷ 0 ∷ 1 ∷ []

close_gap-zeros_example :
    close_gap (some (length in_front)) (in_front ++ behind)
    ≡ written (in_front ++ (replicate (16 - (length in_front + length behind)) 0 ++ behind))
close_gap-zeros_example = close_gap-zeros in_front behind (omega arith)

link_local_bytes : AllBytes link_local
unfolding AllBytes
link_local_bytes = (
  omega arith,
  (
    omega arith,
    (
      omega arith,
      (
        omega arith,
        (
          omega arith,
          (
            omega arith,
            (
              omega arith,
              (
                omega arith,
                (
                  omega arith,
                  (
                    omega arith,
                    (
                      omega arith,
                      (omega arith, (omega arith, (omega arith, (omega arith, (omega arith, tt))))),
                    ),
                  ),
                ),
              ),
            ),
          ),
        ),
      ),
    ),
  ),
)

inet_ntop6-fits_example :
    (text : List ℕ) × (length text ≤ 42)
    × (long_text link_local ≡ written text)
    × (inet_ntop6 link_local 14
        ≡ (if ltb 14 (length text + 1) then failed enospc else written text))
inet_ntop6-fits_example = inet_ntop6-fits link_local 14 refl link_local_bytes
