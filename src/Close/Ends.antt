-- ===== src/Close/Ends.antt =====
-- uv_loop_close (libuv/src/uv-common.c) refuses a loop that is in use.
use libuv_analyse.Base.{
  ◌≡◌, ◌≢◌, ◌⊎◌, inl, inr, refl, true, false, Bool-cases, List, [], ◌∷◌, arith,
}
use libuv_analyse.Heap.{Ptr}
use libuv_analyse.Loop.{success, ebusy, Handle, Loop, has_active_reqs}
use libuv_analyse.Loop.Count.{occurrences}
use libuv_analyse.Close.{all_internal, loop_close}

-- A handle of a queue that is not one of the loop itself.
abbrev pub HasOther : (Ptr → Handle) → List Ptr → Type 0
HasOther f q = (x : Ptr) × (occurrences x q ≢ 0) × ((f x).internal ≡ false)

internal_cases :
    (f : Ptr → Handle) (q : List Ptr)
    → (all_internal f q ≡ true) × ((x : Ptr) → occurrences x q ≢ 0 → (f x).internal ≡ true)
      ⊎ (all_internal f q ≡ false) × HasOther f q
unfolding all_internal occurrences
internal_cases f [] = inl (refl, λ x here. absurd (omega (arith, here)))
internal_cases f (p ∷ q) = elim (Bool-cases (f p).internal) [
  | inl own ↦ elim (internal_cases f q) [
    | inl (e, all) ↦ inl (ground (arith, own, e), λ x here. ground (arith, own, all x, here))
    | inr (e, (x, here, other)) ↦ inr (ground (arith, own, e), (x, ground (arith, here), other))
  ]
  | inr other ↦ inr (ground (arith, other), (p, ground arith, other))
]

-- uv_loop_close releases a loop that has no active request and whose handles are all its own, and returns 0. In every
-- other case it returns UV_EBUSY and changes nothing: there is an active request, or a handle of the queue that is not
-- marked as internal, also where that handle is not active.
pub loop_close_lem :
    (release : Loop → Loop) (l : Loop)
    → (loop_close release l ≡ (success, release l))
        × (l.active_reqs ≡ 0)
        × ((x : Ptr) → occurrences x l.handle_queue ≢ 0 → (l.handle x).internal ≡ true)
      ⊎ (loop_close release l ≡ (ebusy, l))
        × ((l.active_reqs ≢ 0) ⊎ HasOther l.handle l.handle_queue)
unfolding loop_close
loop_close_lem release l = elim (Bool-cases (has_active_reqs l)) [
  | inl busy ↦ inr (ground (arith, busy), inl (ground (arith, busy)))
  | inr calm ↦ elim (internal_cases l.handle l.handle_queue) [
    | inl (e, all) ↦ inl (ground (arith, calm, e), ground (arith, calm), all)
    | inr (e, other) ↦ inr (ground (arith, calm, e), inr other)
  ]
]
