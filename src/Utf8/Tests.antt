-- ===== src/Utf8/Tests.antt =====
-- Runs of the UTF-8 decoder, and its theorems at concrete inputs.
use libuv_analyse.Base.{◌≡◌, refl, inr, arith, [], ◌∷◌, ◌++◌}
use libuv_analyse.Utf8.{uint_max, join, continues, utf8_decode1}
use libuv_analyse.Utf8.Encoding.{IsScalar, encode}
use libuv_analyse.Utf8.RoundTrip.{decode1-encode}
use libuv_analyse.Utf8.Legal.{IsResult, Takes, decode1-IsResult}
use libuv_analyse.Utf8.Canonical.{encode-decode1, decode1_same_tops, decode1_cut_off}

-- U+4E2D and an "A".
decode_three : utf8_decode1 (0xE4 ∷ 0xB8 ∷ 0xAD ∷ 0x41 ∷ []) ≡ (0x4E2D, 0x41 ∷ [])
unfolding utf8_decode1 join continues
decode_three = refl

-- An overlong form and a surrogate.
decode_overlong : utf8_decode1 (0xC1 ∷ 0x81 ∷ []) ≡ (uint_max, [])
unfolding utf8_decode1 join continues
decode_overlong = refl

decode_surrogate : utf8_decode1 (0xED ∷ 0xA0 ∷ 0x80 ∷ []) ≡ (uint_max, [])
unfolding utf8_decode1 join continues
decode_surrogate = refl

-- Two letters behind a lead byte, and a lead byte of three with one byte behind it, decode.
decode_letters : utf8_decode1 (0xE4 ∷ 0x41 ∷ 0x41 ∷ []) ≡ (0x4041, [])
unfolding utf8_decode1 join continues
decode_letters = refl

decode_cut_off : utf8_decode1 (0xE4 ∷ 0xB8 ∷ []) ≡ (0x138, [])
unfolding utf8_decode1 join continues
decode_cut_off = refl

decode1-encode_example : utf8_decode1 (encode 0x1F600 ++ (0x41 ∷ [])) ≡ (0x1F600, 0x41 ∷ [])
decode1-encode_example = decode1-encode 0x1F600 (0x41 ∷ []) (inr (omega arith, omega arith))

decode1-IsResult_example :
    IsResult (utf8_decode1 (0xE4 ∷ 0xB8 ∷ 0xAD ∷ [])).0
    × Takes 1 4 (0xE4 ∷ 0xB8 ∷ 0xAD ∷ []) (utf8_decode1 (0xE4 ∷ 0xB8 ∷ 0xAD ∷ [])).1
decode1-IsResult_example = decode1-IsResult 0xE4 (0xB8 ∷ 0xAD ∷ [])

encode-decode1_example :
    (encode (utf8_decode1 (0xE4 ∷ ((0xB8 ∷ 0xAD ∷ []) ++ (0x41 ∷ [])))).0 ≡ 0xE4 ∷ 0xB8 ∷ 0xAD ∷ [])
    × ((utf8_decode1 (0xE4 ∷ ((0xB8 ∷ 0xAD ∷ []) ++ (0x41 ∷ [])))).1 ≡ 0x41 ∷ [])
    × IsScalar (utf8_decode1 (0xE4 ∷ ((0xB8 ∷ 0xAD ∷ []) ++ (0x41 ∷ [])))).0
unfolding utf8_decode1 join continues
encode-decode1_example =
    encode-decode1 0xE4 (0xB8 ∷ 0xAD ∷ []) (0x41 ∷ []) (omega arith) (omega arith)

decode1_same_tops_example :
    utf8_decode1 (0xE4 ∷ 0x41 ∷ 0x41 ∷ []) ≡ utf8_decode1 (0xE4 ∷ 0x81 ∷ 0x81 ∷ [])
decode1_same_tops_example =
    decode1_same_tops 0xE4 0x41 0x41 [] (omega arith) (omega arith) (omega arith) (omega arith)
      (omega arith)

decode1_cut_off_example : utf8_decode1 (0xE4 ∷ 0xB8 ∷ []) ≡ utf8_decode1 (0xC4 ∷ 0xB8 ∷ [])
decode1_cut_off_example = decode1_cut_off 0xE4 0xB8 (omega arith) (omega arith) (omega arith)
