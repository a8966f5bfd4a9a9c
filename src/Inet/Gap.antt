-- ===== src/Inet/Gap.antt =====
-- The shift that opens the gap of `::` at the end of inet_pton6 (libuv/src/inet.c).
use libuv_analyse.Base.{
  ℕ, zero, suc, ◌+◌, ◌-◌, ◌<◌, ◌≡◌, refl, sym, ap, ◌∙◌, List, [], ◌∷◌, ◌++◌, append_assoc,
  append-nil, some, length, length-append, length-replicate, set, get_or, replicate, arith,
}
use libuv_analyse.Inet.{written}
use libuv_analyse.Inet.Parse.{shift_loop, close_gap}

set_behind :
    (pre : List ℕ) (y v : ℕ) (post : List ℕ)
    → set (pre ++ (y ∷ post)) (length pre) v ≡ pre ++ (v ∷ post)
set_behind [] y v post = refl
set_behind (x ∷ pre) y v post = ap (λ r. x ∷ r) (set_behind pre y v post)

get_behind : (pre : List ℕ) (y : ℕ) (post : List ℕ) → get_or (pre ++ (y ∷ post)) (length pre) 0 ≡ y
get_behind [] y post = refl
get_behind (x ∷ pre) y post = get_behind pre y post

-- A list that is not empty, as all but its last element and the last.
last_of :
    (n : ℕ) (xs : List ℕ)
    → length xs ≡ suc n
    → (ys : List ℕ) × (y : ℕ) × (length ys ≡ n) × (xs ≡ ys ++ (y ∷ []))
last_of n [] e = absurd (omega (arith, e))
last_of zero (x ∷ []) e = ([], x, refl, refl)
last_of zero (x ∷ z ∷ xs) e = absurd (omega (arith, e))
last_of (suc n) (x ∷ xs) e =
    let (ys, y, short, same) = last_of n xs (omega (arith, e)) in
    (x ∷ ys, y, omega (arith, short), ap (λ t. x ∷ t) same)

zeros_swap :
    (gap : ℕ) (moved : List ℕ) → 0 ∷ (replicate gap 0 ++ moved) ≡ replicate gap 0 ++ (0 ∷ moved)
zeros_swap zero moved = refl
zeros_swap (suc gap) moved = ap (λ t. 0 ∷ t) (zeros_swap gap moved)

apart :
    (pre ys : List ℕ) (y : ℕ) (rest : List ℕ)
    → pre ++ ((ys ++ (y ∷ [])) ++ rest) ≡ (pre ++ ys) ++ (y ∷ rest)
apart pre ys y rest = rw (append_assoc ys (y ∷ []) rest, append_assoc pre ys (y ∷ rest)) refl

set_at :
    (pre : List ℕ) (i y v : ℕ) (post : List ℕ)
    → i ≡ length pre
    → set (pre ++ (y ∷ post)) i v ≡ pre ++ (v ∷ post)
set_at pre i y v post here = rw here (set_behind pre y v post)

-- One round moves the last of the bytes that stand before the gap behind it.
one_round :
    (front : List ℕ) (y gap : ℕ) (moved : List ℕ) (at far : ℕ)
    → at ≡ length front
    → far ≡ at + suc gap
    → set
        (set
          (front ++ (y ∷ (replicate gap 0 ++ (0 ∷ moved))))
          far
          (get_or (front ++ (y ∷ (replicate gap 0 ++ (0 ∷ moved)))) at 0))
        at
        0
      ≡ front ++ (0 ∷ (replicate gap 0 ++ (y ∷ moved)))
one_round front y gap moved at far here there =
    let zs : List ℕ = replicate gap 0 in
    let read : get_or (front ++ (y ∷ (zs ++ (0 ∷ moved)))) at 0 ≡ y =
      rw here (get_behind front y (zs ++ (0 ∷ moved))) in
    let index : far ≡ length (front ++ (y ∷ zs)) =
      omega (arith, length-append front (y ∷ zs), length-replicate {A = ℕ} gap 0) in
    let write : set (front ++ (y ∷ (zs ++ (0 ∷ moved)))) far y
        ≡ front ++ (y ∷ (zs ++ (y ∷ moved))) =
      ap (λ t. set t far y) (sym (append_assoc front (y ∷ zs) (0 ∷ moved)))
      ∙ set_at (front ++ (y ∷ zs)) far 0 y moved index
      ∙ append_assoc front (y ∷ zs) (y ∷ moved) in
    rw (read, write) (set_at front at y 0 (zs ++ (y ∷ moved)) here)

shift_loop-gap :
    (left n gap : ℕ) (pre xs moved : List ℕ)
    → length xs ≡ left
    → left + length moved ≡ n
    → length pre + left + suc gap + length moved ≡ 16
    → shift_loop left n (length pre) (pre ++ (xs ++ (0 ∷ (replicate gap 0 ++ moved))))
      ≡ pre ++ (0 ∷ (replicate gap 0 ++ (xs ++ moved)))
unfolding shift_loop
shift_loop-gap zero n gap pre [] moved short all whole = refl
shift_loop-gap zero n gap pre (x ∷ xs) moved short all whole = absurd (omega (arith, short))
shift_loop-gap (suc left) n gap pre xs moved short all whole =
    let (ys, y, shorter, same) = last_of left xs short in
    let at : length pre + (n - (n - left)) ≡ length (pre ++ ys) =
      omega (arith, length-append pre ys, shorter, all) in
    let far : 16 - (n - left) ≡ length pre + (n - (n - left)) + suc gap =
      omega (arith, whole, all) in
    let round =
      one_round (pre ++ ys) y gap moved (length pre + (n - (n - left))) (16 - (n - left)) at far in
    let rest =
      shift_loop-gap left n gap pre ys (y ∷ moved) shorter (omega (arith, all))
        (omega (arith, whole)) in
    rw
      (
        same,
        apart pre ys y (0 ∷ (replicate gap 0 ++ moved)),
        zeros_swap gap moved,
        round,
        append_assoc ys (y ∷ []) moved,
        append_assoc pre ys (0 ∷ (replicate gap 0 ++ (y ∷ moved))),
      )
      rest

-- The shift by hand of inet_pton6, where `::` has stood behind the bytes `pre`, the bytes `xs` behind it, and
-- these are fewer than 16, puts as many 0 between them as are missing.
pub close_gap-zeros :
    (pre xs : List ℕ)
    → length pre + length xs < 16
    → close_gap (some (length pre)) (pre ++ xs)
      ≡ written (pre ++ (replicate (16 - (length pre + length xs)) 0 ++ xs))
unfolding close_gap
close_gap-zeros pre xs short =
    let gap : ℕ = 16 - (length pre + length xs) - 1 in
    let missing : 16 - (length pre + length xs) ≡ suc gap = omega (arith, short) in
    let behind : length pre + length xs - length pre ≡ length xs = omega arith in
    let shifted =
      rw (append-nil (replicate {A = ℕ} gap 0), append-nil xs) at
        (shift_loop-gap (length xs) (length xs) gap pre xs [] refl (omega arith)
          (omega (arith, short))) in
    rw (length-append pre xs, behind, missing, append_assoc pre xs (replicate (suc gap) 0), shifted)
      (ground (arith, short))
