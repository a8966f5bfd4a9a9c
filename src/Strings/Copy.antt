-- ===== src/Strings/Copy.antt =====
-- uv__strscpy (libuv/src/strscpy.c) copies a string that fits, whole.
use libuv_analyse.Base.{
  ℕ, zero, suc, ◌+◌, ◌-◌, ◌≤◌, ◌<◌, ◌≡◌, refl, ap, ◌∙◌, List, [], ◌∷◌, ◌++◌, append_assoc, length,
  length-append, set, drop, take, ◌==◌, if◌then◌else◌, arith,
}
use libuv_analyse.Strings.{copied, too_big, ssize_max, byte_at, tail, copy_loop, strscpy}

-- How many bytes are 0.
unfoldable pub zeros : List ℕ → ℕ
zeros [] = 0
zeros (x ∷ s) = (if x == 0 then 1 else 0) + zeros s

set_behind :
    (pre : List ℕ) (y v : ℕ) (post : List ℕ)
    → set (pre ++ (y ∷ post)) (length pre) v ≡ pre ++ (v ∷ post)
set_behind [] y v post = refl
set_behind (x ∷ pre) y v post = ap (λ (r : List ℕ). x ∷ r) (set_behind pre y v post)

one_more : (pre : List ℕ) (x : ℕ) → length (pre ++ (x ∷ [])) ≡ length pre + 1
one_more pre x = omega (arith, length-append pre (x ∷ []))

copy_loop-fits :
    (s : List ℕ) (left : ℕ) (pre post : List ℕ)
    → zeros s ≡ 0
    → length s < left
    → left ≤ length post
    → length pre + length s ≤ ssize_max
    → copy_loop left (length pre) (pre ++ post) s
      ≡ (copied (length pre + length s), pre ++ (s ++ (0 ∷ drop (suc (length s)) post)))
unfolding copy_loop byte_at tail zeros
copy_loop-fits s zero pre post full short room word = absurd (omega arith)
copy_loop-fits s (suc left) pre [] full short room word = absurd (omega arith)
copy_loop-fits [] (suc left) pre (y ∷ post) full short room word =
    rw (set_behind pre y 0 post) (ground arith)
copy_loop-fits (x ∷ s) (suc left) pre (y ∷ post) full short room word =
    let rest =
      rw
        (
          one_more pre x,
          append_assoc pre (x ∷ []) post,
          append_assoc pre (x ∷ []) (s ++ (0 ∷ drop (suc (length s)) post)),
        )
        at
        (copy_loop-fits s left (pre ++ (x ∷ [])) post (ground (arith, full)) (omega arith)
          (omega arith) (omega (arith, one_more pre x))) in
    rw (set_behind pre y x post) (ground (arith, rest, full))

-- uv__strscpy of a string without a 0 byte into a buffer that has room for it and its terminating 0, within
-- the size given, copies it with the 0, keeps the rest of the buffer, and returns its length.
pub strscpy-fits :
    (d s : List ℕ) (n : ℕ)
    → zeros s ≡ 0
    → length s < n
    → n ≤ length d
    → length s ≤ ssize_max
    → strscpy d s n ≡ (copied (length s), s ++ (0 ∷ drop (suc (length s)) d))
unfolding strscpy
strscpy-fits d s n full short room word =
    copy_loop-fits s n [] d full short room (omega (arith, word)) ∙ ground arith

copy_loop-cuts :
    (s : List ℕ) (left : ℕ) (pre post : List ℕ)
    → zeros s ≡ 0
    → left ≤ length s
    → left ≤ length post
    → 0 < length pre + left
    → copy_loop left (length pre) (pre ++ post) s
      ≡ (too_big, set (pre ++ (take left s ++ drop left post)) (length pre + left - 1) 0)
unfolding copy_loop byte_at tail zeros
copy_loop-cuts s zero pre post full long room some_byte = ground arith
copy_loop-cuts [] (suc left) pre post full long room some_byte = absurd (omega arith)
copy_loop-cuts (x ∷ s) (suc left) pre [] full long room some_byte = absurd (omega arith)
copy_loop-cuts (x ∷ s) (suc left) pre (y ∷ post) full long room some_byte =
    let rest =
      rw
        (
          one_more pre x,
          append_assoc pre (x ∷ []) post,
          append_assoc pre (x ∷ []) (take left s ++ drop left post),
        )
        at
        (copy_loop-cuts s left (pre ++ (x ∷ [])) post (ground (arith, full)) (omega arith)
          (omega arith) (omega (arith, one_more pre x))) in
    let index : length pre + 1 + left - 1 ≡ length pre + suc left - 1 = omega arith in
    rw (set_behind pre y x post, ← index) (ground (arith, rest, full))

-- uv__strscpy of a string of at least `n` bytes without a 0, into a buffer of at least `n` bytes, where `n` is
-- not 0, returns UV_E2BIG. The buffer then holds the first `n` bytes, the last of them replaced by the
-- terminating 0, and is as it was behind them.
pub strscpy-cuts :
    (d s : List ℕ) (n : ℕ)
    → zeros s ≡ 0
    → 0 < n
    → n ≤ length s
    → n ≤ length d
    → strscpy d s n ≡ (too_big, set (take n s ++ drop n d) (n - 1) 0)
unfolding strscpy
strscpy-cuts d s n full some_byte long room =
    copy_loop-cuts s n [] d full long room (omega arith) ∙ ground arith
