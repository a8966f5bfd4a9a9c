-- ===== src/Strings.antt =====
-- uv__strscpy of libuv/src/strscpy.c. The source is the list of its bytes before the terminating 0, the
-- destination the list of its bytes.
pub mod Copy
pub mod Tests
use libuv_analyse.Base.{
  ℕ, zero, suc, ◌+◌, ◌-◌, ◌^◌, Bool, List, [], ◌∷◌, set, ltb, ◌==◌, if◌then◌else◌,
}

-- A length, or UV_E2BIG.
pub data Copied : Type 0 where
  copied : ℕ → Copied
  too_big : Copied

-- SSIZE_MAX of a 64-bit `ssize_t`.
abbrev pub ssize_max : ℕ
ssize_max = 2 ^ 63 - 1

-- `s[i]`, 0 behind the last byte.
pub byte_at : List ℕ → ℕ
byte_at [] = 0
byte_at (x ∷ s) = x

pub tail : List ℕ → List ℕ
tail [] = []
tail (x ∷ s) = s

-- The loop with `left` rounds to go, at index `i`, with the source from `i` on.
pub copy_loop : ℕ → ℕ → List ℕ → List ℕ → Copied × List ℕ
unfolding byte_at tail
copy_loop zero i d s = if i == 0 then (copied 0, d) else (too_big, set d (i - 1) 0)
copy_loop (suc left) i d s =
    let rest = copy_loop left (i + 1) (set d i (byte_at s)) (tail s) in
    if byte_at s == 0
    then (if ltb ssize_max i then too_big else copied i, set d i (byte_at s))
    else rest

unfoldable pub strscpy : List ℕ → List ℕ → ℕ → Copied × List ℕ
unfolding copy_loop
strscpy d s n = copy_loop n 0 d s
