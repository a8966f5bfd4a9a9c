-- ===== src/Threadpool/Tally.antt =====
-- Counting the threads of the pool.
use libuv_analyse.Base.{
  ℕ, zero, suc, ◌+◌, ◌≤◌, ◌<◌, ◌≡◌, refl, true, some, List, [], ◌∷◌, length, set, get_elem?, ◌==◌,
  if◌then◌else◌, arith,
}
use native.Mathlib.Decide.{dec_lt}
use libuv_analyse.Threadpool.{Ptr, Pc, top, waiting, exited, running, finished}

-- The sum of a number for each thread.
unfoldable pub tally : (Pc → ℕ) → List Pc → ℕ
tally f [] = 0
tally f (pc ∷ ts) = f pc + tally f ts

unfoldable pub is_waiting : Pc → ℕ
is_waiting waiting = 1
is_waiting pc = 0

unfoldable pub is_exited : Pc → ℕ
is_exited exited = 1
is_exited pc = 0

-- Neither waiting nor at its end.
unfoldable pub is_busy : Pc → ℕ
is_busy waiting = 0
is_busy exited = 0
is_busy pc = 1

unfoldable pub is_slow : Pc → ℕ
is_slow (running w true) = 1
is_slow (finished true) = 1
is_slow pc = 0

unfoldable pub runs : Ptr → Pc → ℕ
runs w (running v slow) = if v == w then 1 else 0
runs w pc = 0

module _ (f : Pc → ℕ) where
  pub tally-set :
      (ts : List Pc) (i : ℕ) (old new : Pc)
      → get_elem? ts i ≡ some old
      → tally f (set ts i new) + f old ≡ tally f ts + f new
  unfolding tally
  tally-set [] i old new e = ground (arith, e)
  tally-set (pc ∷ ts) zero old new e = ground (arith, e)
  tally-set (pc ∷ ts) (suc i) old new e = omega (arith, tally-set ts i old new e)

  pub tally_le_length : ((pc : Pc) → f pc ≤ 1) → (ts : List Pc) → tally f ts ≤ length ts
  unfolding tally
  tally_le_length one [] = omega arith
  tally_le_length one (pc ∷ ts) = omega (arith, one pc, tally_le_length one ts)

  pub le-tally : (ts : List Pc) (i : ℕ) (old : Pc) → get_elem? ts i ≡ some old → f old ≤ tally f ts
  unfolding tally
  le-tally [] i old e = ground (arith, e)
  le-tally (pc ∷ ts) zero old e = ground (arith, e)
  le-tally (pc ∷ ts) (suc i) old e = omega (arith, le-tally ts i old e)

  -- A positive sum has a positive summand.
  pub tally_pos :
      (ts : List Pc)
      → 0 < tally f ts
      → (i : ℕ) × (pc : Pc) × (get_elem? ts i ≡ some pc) × (0 < f pc)
  unfolding tally
  tally_pos [] h = absurd (omega arith)
  tally_pos (pc ∷ ts) h = elim (dec_lt 0 (f pc)) [
    | yes p ↦ (0, pc, refl, p)
    | no n ↦ let (i, pc', e, p) = tally_pos ts (omega arith) in (suc i, pc', e, p)
  ]

-- Each thread waits, is busy or has ended.
pub tally-kinds :
    (ts : List Pc) → tally is_waiting ts + tally is_busy ts + tally is_exited ts ≡ length ts
unfolding tally is_waiting is_busy is_exited
tally-kinds [] = omega arith
tally-kinds (pc ∷ ts) = omega (arith, tally-kinds ts, one_kind pc)
  where
    one_kind : (c : Pc) → is_waiting c + is_busy c + is_exited c ≡ 1
    one_kind top = omega arith
    one_kind waiting = omega arith
    one_kind exited = omega arith
    one_kind (running w s) = omega arith
    one_kind (finished s) = omega arith
