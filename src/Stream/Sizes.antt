-- ===== src/Stream/Sizes.antt =====
-- The sizes of buffers (libuv/src/unix/stream.c, uv__count_bufs of libuv/src/uv-common.c).
use libuv_analyse.Base.{
  ℕ, zero, suc, ◌+◌, ◌-◌, ◌%◌, ◌^◌, ◌≤◌, ◌<◌, ◌≡◌, refl, sym, ap, ◌∙◌, inl, inr, Bool-cases, List,
  [], ◌∷◌, length, length-append, take, drop, drop_inside, drop_beyond, length-drop, ltb, ◌==◌,
  arith,
}
use libuv_analyse.Stream.{Buf, count_loop, count_bufs, bytes_of}
use libuv_analyse.Stream.Output.{advance}

-- The number of the bytes.
unfoldable pub total : List Buf → ℕ
total [] = 0
total (b ∷ bs) = length b + total bs

pub length-bytes_of : (bs : List Buf) → length (bytes_of bs) ≡ total bs
unfolding bytes_of total
length-bytes_of [] = refl
length-bytes_of (b ∷ bs) = omega (arith, length-append b (bytes_of bs), length-bytes_of bs)

count_loop_total :
    (bytes : ℕ) (bs : List Buf) → bytes + total bs < 2 ^ 64 → count_loop bytes bs ≡ bytes + total bs
unfolding count_loop total
count_loop_total bytes [] room = omega arith
count_loop_total bytes (b ∷ bs) room =
    let next : (bytes + length b) % 2 ^ 64 ≡ bytes + length b = omega (arith, room) in
    rw next (count_loop_total (bytes + length b) bs (omega (arith, room)) ∙ omega arith)

pub count_bufs_total : (bs : List Buf) → total bs < 2 ^ 64 → count_bufs bs ≡ total bs
unfolding count_bufs
count_bufs_total bs room = count_loop_total 0 bs (omega (arith, room)) ∙ omega arith

-- The three cases of a round of uv__write_req_update.
advance_nil : (n : ℕ) → advance n [] ≡ []
unfolding advance
advance_nil n = refl

advance_inside :
    (n : ℕ) (b : Buf) (bs : List Buf) → n < length b → advance n (b ∷ bs) ≡ drop n b ∷ bs
unfolding advance
advance_inside n b bs few = ground (arith, few)

advance_end : (n : ℕ) (b : Buf) (bs : List Buf) → n ≡ length b → advance n (b ∷ bs) ≡ bs
unfolding advance
advance_end n b bs all = ground (arith, all)

advance_beyond :
    (n : ℕ) (b : Buf) (bs : List Buf)
    → length b < n
    → advance n (b ∷ bs) ≡ advance (n - length b) bs
unfolding advance
advance_beyond n b bs more = ground (arith, more)

data Place (n : ℕ) (b : Buf) : Type 0 where
  inside : n < length b → Place n b
  at_end : n ≡ length b → Place n b
  beyond : length b < n → Place n b

place : (n : ℕ) (b : Buf) → Place n b
place n b = elim (Bool-cases (ltb n (length b))) [
  | inl few ↦ inside (ground (arith, few))
  | inr f ↦ elim (Bool-cases (n == length b)) [
    | inl all ↦ at_end (ground (arith, all))
    | inr g ↦ beyond (ground (arith, f, g))
  ]
]

-- What is left of the buffers are their bytes but for the first `n`.
pub bytes_of-advance :
    (n : ℕ) (bs : List Buf) → n ≤ total bs → bytes_of (advance n bs) ≡ drop n (bytes_of bs)
unfolding bytes_of total
bytes_of-advance n [] few = let nothing : n ≡ 0 = omega arith in rw (nothing, advance_nil 0) refl
bytes_of-advance n (b ∷ bs) few = elim (place n b) [
  | inside in_front ↦
      rw (advance_inside n b bs in_front) (sym (drop_inside n b (bytes_of bs) (omega arith)))
  | at_end all ↦
      let none_left : n - length b ≡ 0 = omega (arith, all) in
      let rest = drop_beyond n b (bytes_of bs) (omega (arith, all)) in
      rw (advance_end n b bs all, rest, none_left) refl
  | beyond more ↦
      rw (advance_beyond n b bs more, drop_beyond n b (bytes_of bs) (omega arith))
        (bytes_of-advance (n - length b) bs (omega arith))
]

pub total-advance : (n : ℕ) (bs : List Buf) → n ≤ total bs → total (advance n bs) + n ≡ total bs
total-advance n bs few =
    let whole = ap (λ (t : List ℕ). length t) (bytes_of-advance n bs few) in
    omega (
      arith,
      whole,
      length-drop n (bytes_of bs),
      length-bytes_of bs,
      length-bytes_of (advance n bs),
    )

-- The buffers that the system is offered are some of them.
pub length-bytes_of-take : (k : ℕ) (bs : List Buf) → length (bytes_of (take k bs)) ≤ total bs
unfolding bytes_of total
length-bytes_of-take zero bs = omega arith
length-bytes_of-take (suc k) [] = omega arith
length-bytes_of-take (suc k) (b ∷ bs) =
    omega (arith, length-append b (bytes_of (take k bs)), length-bytes_of-take k bs)
