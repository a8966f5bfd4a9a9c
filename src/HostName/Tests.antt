-- ===== src/HostName/Tests.antt =====
-- Runs of uv__idna_toascii (libuv/src/idna.c).
use libuv_analyse.Base.{ℕ, ◌≡◌, ◌≢◌, refl, arith, length, List, [], ◌∷◌}
use libuv_analyse.HostName.Written.{Fits}
use libuv_analyse.HostName.Buffer.{idna_toascii-Fits}
use libuv_analyse.HostName.Total.{idna_toascii-Ends}
use libuv_analyse.HostName.{
  no_fuel, result, idna_toascii, idna_toascii_label, points, last_label, digits, rescale,
}
use libuv_analyse.Utf8.{continues, join, utf8_decode1}

-- bücher.
abbrev books : List ℕ
books = 98 ∷ 0xc3 ∷ 0xbc ∷ 99 ∷ 104 ∷ 101 ∷ 114 ∷ []

-- xn--bcher-kva, with the terminating 0.
abbrev books_text : List ℕ
books_text = 120 ∷ 110 ∷ 45 ∷ 45 ∷ 98 ∷ 99 ∷ 104 ∷ 101 ∷ 114 ∷ 45 ∷ 107 ∷ 118 ∷ 97 ∷ 0 ∷ []

books_run : idna_toascii 20 books ≡ result 14 books_text
unfolding idna_toascii last_label idna_toascii_label points utf8_decode1 continues join digits
    rescale
books_run = refl

-- hello, into a buffer of 5 bytes: no 0 is written.
hello_run :
    idna_toascii 5 (104 ∷ 101 ∷ 108 ∷ 108 ∷ 111 ∷ []) ≡ result 5 (104 ∷ 101 ∷ 108 ∷ 108 ∷ 111 ∷ [])
unfolding idna_toascii last_label idna_toascii_label points utf8_decode1
hello_run = refl

idna_toascii-Fits_example : (14 ≡ length books_text) × Fits 20 books_text
idna_toascii-Fits_example = idna_toascii-Fits 20 books 14 books_text books_run

idna_toascii-Ends_example : idna_toascii 20 books ≢ no_fuel
idna_toascii-Ends_example = idna_toascii-Ends 20 books (omega arith)
