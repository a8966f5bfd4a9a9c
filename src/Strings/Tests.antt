-- ===== src/Strings/Tests.antt =====
-- Runs of uv__strscpy (libuv/src/strscpy.c).
use libuv_analyse.Base.{ℕ, suc, ◌-◌, ◌≡◌, refl, List, [], ◌∷◌, ◌++◌, length, set, take, drop, arith}
use libuv_analyse.Strings.{copied, too_big, strscpy}
use libuv_analyse.Strings.Copy.{zeros, strscpy-fits, strscpy-cuts}

abbrev word : List ℕ
word = 104 ∷ 105 ∷ []

abbrev buffer : List ℕ
buffer = 1 ∷ 2 ∷ 3 ∷ 4 ∷ []

fits_example :
    strscpy buffer word 4 ≡ (copied (length word), word ++ (0 ∷ drop (suc (length word)) buffer))
unfolding zeros
fits_example = strscpy-fits buffer word 4 refl (omega arith) (omega arith) (omega arith)

cuts_example : strscpy buffer word 2 ≡ (too_big, set (take 2 word ++ drop 2 buffer) (2 - 1) 0)
unfolding zeros
cuts_example = strscpy-cuts buffer word 2 refl (omega arith) (omega arith) (omega arith)
