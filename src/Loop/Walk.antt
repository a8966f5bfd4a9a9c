-- ===== src/Loop/Walk.antt =====
-- The visit of the handles of a loop, uv_walk (libuv/src/uv-common.c). uv_run is not reentrant, so that a callback of
-- the visit ends no handle and the local queue keeps its elements.
use libuv_analyse.Base.{
  ◌≡◌, refl, sym, ap, ◌∙◌, true, false, Bool-cases, inl, inr, List, [], ◌∷◌, ◌++◌, append_assoc,
  append-nil, if◌then◌else◌,
}
use libuv_analyse.Heap.{Ptr}
use libuv_analyse.Loop.{Handle, Loop}

-- The handle at the head of the local queue goes to the end of that of the loop.
abbrev pub put_back : Ptr → Loop → Loop
put_back p l = record l { handle_queue = l.handle_queue ++ (p ∷ []) }

abbrev pub visit : (Ptr → Loop → Loop) → Ptr → Loop → Loop
visit cb p l = if (l.handle p).internal then l else cb p l

unfoldable pub walk_all : (Ptr → Loop → Loop) → List Ptr → Loop → Loop
walk_all cb [] l = l
walk_all cb (p ∷ rest) l = walk_all cb rest (visit cb p (put_back p l))

unfoldable pub walk : (Ptr → Loop → Loop) → Loop → Loop
unfolding walk_all
walk cb l = walk_all cb l.handle_queue (record l { handle_queue = [] })

-- The handles of a queue that are not those of the loop itself, in order.
unfoldable pub others : (Ptr → Handle) → List Ptr → List Ptr
others f [] = []
others f (p ∷ q) = if (f p).internal then others f q else p ∷ others f q

-- What the callback does to the queue and to the marks of the handles, and that `seen` tells which it has visited.
pub record IsVisitor (seen : Loop → List Ptr) (cb : Ptr → Loop → Loop) : Type 0 where
  pub queue : (p : Ptr) (l : Loop) → (cb p l).handle_queue ≡ l.handle_queue
  pub marks : (p x : Ptr) (l : Loop) → ((cb p l).handle x).internal ≡ (l.handle x).internal
  pub told : (p : Ptr) (l : Loop) → seen (cb p l) ≡ seen l ++ (p ∷ [])
  pub kept : (p : Ptr) (l : Loop) → seen (put_back p l) ≡ seen l
  pub begun : (l : Loop) → seen (record l { handle_queue = [] }) ≡ seen l

others_same :
    (f g : Ptr → Handle) (q : List Ptr)
    → ((x : Ptr) → (g x).internal ≡ (f x).internal)
    → others g q ≡ others f q
unfolding others
others_same f g [] same = refl
others_same f g (p ∷ q) same = rw (same p, others_same f g q same) refl

visit_own :
    (cb : Ptr → Loop → Loop) (p : Ptr) (l : Loop) → (l.handle p).internal ≡ true → visit cb p l ≡ l
visit_own cb p l own = rw (visit, own) refl

visit_external :
    (cb : Ptr → Loop → Loop) (p : Ptr) (l : Loop)
    → (l.handle p).internal ≡ false
    → visit cb p l ≡ cb p l
visit_external cb p l external = rw (visit, external) refl

others_own :
    (f : Ptr → Handle) (p : Ptr) (q : List Ptr)
    → (f p).internal ≡ true
    → others f q ≡ others f (p ∷ q)
unfolding others
others_own f p q own = rw own refl

others_external :
    (f : Ptr → Handle) (p : Ptr) (q : List Ptr)
    → (f p).internal ≡ false
    → p ∷ others f q ≡ others f (p ∷ q)
unfolding others
others_external f p q external = rw external refl

module _ {seen : Loop → List Ptr} {cb : Ptr → Loop → Loop} (v : IsVisitor seen cb) where
  -- What is left of the visit, behind a handle.
  abbrev Walked : List Ptr → Loop → Loop → Type 0
  Walked q l l' = (l'.handle_queue ≡ l.handle_queue ++ q) × (seen l' ≡ seen l ++ others l.handle q)

  walk_all-Walked : (q : List Ptr) (l : Loop) → Walked q l (walk_all cb q l)
  unfolding walk_all others
  walk_all-Walked [] l = (sym (append-nil l.handle_queue), sym (append-nil (seen l)))
  walk_all-Walked (p ∷ rest) l =
      let l₁ = put_back p l in
      elim (Bool-cases (l.handle p).internal) [
        | inl own ↦
            let (queue, told) = walk_all-Walked rest l₁ in
            let reached = visit_own cb p l₁ own in
            (
              ap (λ m. (walk_all cb rest m).handle_queue) reached
                  ∙ queue
                  ∙ append_assoc l.handle_queue (p ∷ []) rest,
              ap (λ m. seen (walk_all cb rest m)) reached
                  ∙ told
                  ∙ ap (λ r. r ++ others l.handle rest) (v.kept p l)
                  ∙ ap (λ r. seen l ++ r) (others_own l.handle p rest own),
            )
        | inr external ↦
            let l₂ = cb p l₁ in
            let (queue, told) = walk_all-Walked rest l₂ in
            let reached = visit_external cb p l₁ external in
            let same = others_same l.handle l₂.handle rest (λ x. v.marks p x l₁) in
            (
              ap (λ m. (walk_all cb rest m).handle_queue) reached
                  ∙ queue
                  ∙ ap (λ r. r ++ rest) (v.queue p l₁)
                  ∙ append_assoc l.handle_queue (p ∷ []) rest,
              ap (λ m. seen (walk_all cb rest m)) reached
                  ∙ told
                  ∙ ap (λ r. r ++ others l₂.handle rest)
                      (v.told p l₁ ∙ ap (λ r. r ++ (p ∷ [])) (v.kept p l))
                  ∙ append_assoc (seen l) (p ∷ []) (others l₂.handle rest)
                  ∙ ap (λ r. seen l ++ (p ∷ r)) same
                  ∙ ap (λ r. seen l ++ r) (others_external l.handle p rest external),
            )
      ]

  -- uv_walk calls the callback once for each handle of the loop that is not marked as internal, in the order of the
  -- queue, and leaves the queue as it was, where the callback changes neither the queue nor the marks.
  -- `seen` is any record of its calls: a call adds its handle at the end, and nothing else of uv_walk changes it.
  pub walk-others :
      (l : Loop)
      → ((walk cb l).handle_queue ≡ l.handle_queue)
        × (seen (walk cb l) ≡ seen l ++ others l.handle l.handle_queue)
  unfolding walk
  walk-others l =
      let (queue, told) = walk_all-Walked l.handle_queue (record l { handle_queue = [] }) in
      (queue, told ∙ ap (λ r. r ++ others l.handle l.handle_queue) (v.begun l))
