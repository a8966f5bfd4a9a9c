-- ===== src/Watcher/Round.antt =====
-- uv__run_idle, uv__run_prepare and uv__run_check (libuv/src/unix/loop-watcher.c).
use libuv_analyse.Base.{
  Option, ◌∙◌, ℕ, zero, suc, ◌≤◌, ◌<◌, ◌≡◌, ◌⊎◌, inl, inr, refl, ap, some, List, [], ◌∷◌, ◌++◌,
  length, arith,
}
use libuv_analyse.Heap.{Ptr}
use libuv_analyse.Loop.{Loop}
use libuv_analyse.Loop.Count.{occurrences, occurrences-append}
use libuv_analyse.Watcher.{
  Kind, prepare, check, idle, queue_of, set_queue, Call, run_watcher, run_moved, run_watchers,
}
use libuv_analyse.Watcher.Queues.{standing, IsWatched}

-- What a round asks of the callbacks: they keep the queues exact and put nothing into the local queue of
-- the round.
pub record IsSteady (call : Call) (kind : Kind) : Type 0 where
  pub keeps : (cb p : Ptr) (l : Loop) → IsWatched kind l → IsWatched kind (call cb p l)
  pub no_more : (cb p : Ptr) (l : Loop) → length (call cb p l).moved ≤ length l.moved

-- The loop before the callback of one handle, and before the round.
abbrev pub turned : Kind → Ptr → List Ptr → Loop → Loop
turned kind p rest l = record (set_queue kind (queue_of kind l ++ (p ∷ [])) l) { moved = rest }

abbrev pub taken : Kind → Loop → Loop
taken kind l = record (set_queue kind [] l) { moved = queue_of kind l }

turned-IsWatched :
    (kind : Kind) (p : Ptr) (rest : List Ptr) (l : Loop)
    → l.moved ≡ p ∷ rest
    → IsWatched kind l
    → IsWatched kind (turned kind p rest l)
unfolding IsWatched standing occurrences
turned-IsWatched prepare p rest l e inv x =
    rw (occurrences-append x l.prepare_handles (p ∷ [])) (ground (arith, rw e at (inv x)))
turned-IsWatched check p rest l e inv x =
    rw (occurrences-append x l.check_handles (p ∷ [])) (ground (arith, rw e at (inv x)))
turned-IsWatched idle p rest l e inv x =
    rw (occurrences-append x l.idle_handles (p ∷ [])) (ground (arith, rw e at (inv x)))

taken-IsWatched :
    (kind : Kind) (l : Loop) → l.moved ≡ [] → IsWatched kind l → IsWatched kind (taken kind l)
unfolding IsWatched standing occurrences
taken-IsWatched prepare l e inv x = ground (arith, rw e at (inv x))
taken-IsWatched check l e inv x = ground (arith, rw e at (inv x))
taken-IsWatched idle l e inv x = ground (arith, rw e at (inv x))

pub List-cases : (q : List Ptr) → (q ≡ []) ⊎ ((p : Ptr) × (rest : List Ptr) × (q ≡ p ∷ rest))
List-cases [] = inl refl
List-cases (p ∷ rest) = inr (p, rest, refl)

module _ (call : Call) (kind : Kind) (fuel : ℕ) (l : Loop) where
  abbrev pub turn : List Ptr → Option Loop
  turn [] = some l
  turn (p ∷ rest) = run_moved call kind fuel (run_watcher call kind p rest l)

  pub run_moved_step : (q : List Ptr) → l.moved ≡ q → run_moved call kind (suc fuel) l ≡ turn q
  unfolding run_moved
  run_moved_step q e =
      ap
        (λ (r : List Ptr). elim r as (λ _. Option Loop) [
          | [] ↦ some l
          | p ∷ rest ↦ run_moved call kind fuel (run_watcher call kind p rest l)
        ])
        e
      ∙ same q
    where
      same :
          (r : List Ptr)
          → (elim r as (λ _. Option Loop) [
            | [] ↦ some l
            | p ∷ rest ↦ run_moved call kind fuel (run_watcher call kind p rest l)
          ])
            ≡ turn r
      same [] = refl
      same (p ∷ rest) = refl

module _ {call : Call} {kind : Kind} (steady : IsSteady call kind) where
  run_moved-ends :
      (fuel : ℕ) (l : Loop)
      → IsWatched kind l
      → length l.moved < fuel
      → (l' : Loop) × (run_moved call kind fuel l ≡ some l') × (l'.moved ≡ []) × IsWatched kind l'
  unfolding run_watcher
  run_moved-ends zero l inv enough = absurd (omega arith)
  run_moved-ends (suc fuel) l inv enough = elim (List-cases l.moved) [
    | inl e ↦ (l, run_moved_step call kind fuel l [] e, e, inv)
    | inr (p, rest, e) ↦
        let l₁ = turned kind p rest l in
        let cb = (l₁.handle p).watcher_cb in
        let shorter : length rest < fuel = omega (arith, ap length e) in
        let (l', ends, emptied, exact) =
          run_moved-ends fuel (call cb p l₁)
            (steady.keeps cb p l₁ (turned-IsWatched kind p rest l e inv))
            (omega (arith, steady.no_more cb p l₁)) in
        (l', run_moved_step call kind fuel l (p ∷ rest) e ∙ ends, emptied, exact)
  ]

  -- A round over the handles of a kind returns, after as many turns as its queue has handles and one more,
  -- where the callbacks keep the queues exact and put nothing into the local queue of the round. Then that
  -- local queue is empty and the queue of the kind holds exactly the active handles, each once.
  pub run_watchers-ends :
      (fuel : ℕ) (l : Loop)
      → IsWatched kind l
      → l.moved ≡ []
      → length (queue_of kind l) < fuel
      → (l' : Loop) × (run_watchers call kind fuel l ≡ some l')
        × (l'.moved ≡ [])
        × IsWatched kind l'
  unfolding run_watchers
  run_watchers-ends fuel l inv none_moved enough =
      run_moved-ends fuel (taken kind l) (taken-IsWatched kind l none_moved inv) enough
