-- ===== src/Heap/Fields.antt =====
-- The fields of every node after heap_node_swap (libuv/src/heap-inl.h), in one expression each.
use libuv_analyse.Base.{◌≡◌, ◌≢◌, ◌⊎◌, ◌&&◌, not, arith, ◌==◌, if◌then◌else◌, refl}
use libuv_analyse.Heap.{
  Heap, Ptr, null, set_parent, set_parent_of, swap_fields, adopt, relink, heap_node_swap,
}

module _ (h : Heap) (p c : Ptr) where
  -- A parent and its child, where the parent's parent is another node or NULL.
  pub record Apart : Type 0 where
    pub p_null : p ≢ null
    pub c_null : c ≢ null
    pub p_c : p ≢ c
    pub above_p : h.parent p ≢ p
    pub above_c : h.parent p ≢ c
    pub child : (h.left p ≡ c) × (h.right p ≢ c) ⊎ (h.left p ≢ c) × (h.right p ≡ c)
    pub left_c : h.left c ≢ c
    pub right_c : h.right c ≢ c

-- The three parts of heap_node_swap, one field at a time.
module _ (h : Heap) (p c : Ptr) where
  adopt-left :
      (x : Ptr) → (adopt p c h).left x ≡ (if (h.left c == c) && (x == c) then p else h.left x)
  unfolding adopt
  adopt-left x = ground arith

  adopt-right :
      (x : Ptr) → (adopt p c h).right x ≡ (if not (h.left c == c) && (x == c) then p else h.right x)
  unfolding adopt
  adopt-right x = ground arith

  adopt-parent :
      (x : Ptr)
      → x ≢ null
      → (adopt p c h).parent x
        ≡ (if x == (if h.left c == c then h.right c else h.left c) then c else h.parent x)
  unfolding adopt
  adopt-parent x ne = ground arith

  adopt-min : (adopt p c h).min ≡ h.min
  unfolding adopt
  adopt-min = ground arith

  set_parent_of-left : (set_parent_of p c h).left ≡ h.left
  unfolding set_parent_of
  set_parent_of-left = ground arith

  set_parent_of-right : (set_parent_of p c h).right ≡ h.right
  unfolding set_parent_of
  set_parent_of-right = ground arith

  set_parent_of-min : (set_parent_of p c h).min ≡ h.min
  unfolding set_parent_of
  set_parent_of-min = ground arith

  set_parent_of-parent :
      (x : Ptr) → x ≢ null → (set_parent_of p c h).parent x ≡ (if x == p then c else h.parent x)
  unfolding set_parent_of
  set_parent_of-parent x ne = ground arith

  relink-left :
      (x : Ptr)
      → (relink p c h).left x ≡ (
          if (x == h.parent c) && not (h.parent c == null) && (h.left (h.parent c) == p)
          then c
          else h.left x)
  unfolding relink
  relink-left x = ground arith

  relink-right :
      (x : Ptr)
      → (relink p c h).right x ≡ (
          if (x == h.parent c) && not (h.parent c == null) && not (h.left (h.parent c) == p)
          then c
          else h.right x)
  unfolding relink
  relink-right x = ground arith

  relink-parent : (relink p c h).parent ≡ h.parent
  unfolding relink
  relink-parent = ground arith

  relink-min : (relink p c h).min ≡ (if h.parent c == null then c else h.min)
  unfolding relink
  relink-min = ground arith

module _ (h : Heap) (p c : Ptr) (a : Apart h p c) where
  -- The store after the two assignments of whole nodes, and before the last one of the source.
  abbrev swapped : Heap
  swapped = set_parent p c (swap_fields p c h)

  abbrev told : Heap
  told =
      let h₂ = adopt p c swapped in
      let h₃ = set_parent_of (h₂.left p) p h₂ in set_parent_of (h₃.right p) p h₃

  swapped-left :
      (x : Ptr)
      → swapped.left x ≡ (if x == c then h.left p else if x == p then h.left c else h.left x)
  unfolding swap_fields
  swapped-left x = ground arith

  swapped-right :
      (x : Ptr)
      → swapped.right x ≡ (if x == c then h.right p else if x == p then h.right c else h.right x)
  unfolding swap_fields
  swapped-right x = ground arith

  swapped-parent :
      (x : Ptr)
      → swapped.parent x ≡ (if x == p then c else if x == c then h.parent p else h.parent x)
  unfolding swap_fields
  swapped-parent x = ground arith

  told-left :
      (x : Ptr)
      → told.left x ≡ (
          if x == c
          then (if h.left p == c then p else h.left p)
          else if x == p
          then h.left c
          else h.left x)
  told-left x =
      rw (set_parent_of-left, set_parent_of-left, adopt-left swapped p c x)
        (ground (arith, swapped-left x, swapped-left c))

  told-right :
      (x : Ptr)
      → told.right x ≡ (
          if x == c
          then (if h.left p == c then h.right p else p)
          else if x == p
          then h.right c
          else h.right x)
  told-right x =
      rw (set_parent_of-right, set_parent_of-right, adopt-right swapped p c x)
        (ground (arith, swapped-right x, swapped-left c))

  adopted-left : (adopt p c swapped).left p ≡ h.left c
  adopted-left = rw (adopt-left swapped p c p) (ground (arith, swapped-left p, a.p_c))

  adopted-right : (adopt p c swapped).right p ≡ h.right c
  adopted-right = rw (adopt-right swapped p c p) (ground (arith, swapped-right p, a.p_c))

  told-parent :
      (x : Ptr)
      → x ≢ null
      → told.parent x ≡ (
          if x == h.right c
          then p
          else if x == h.left c
          then p
          else if x == (if h.left p == c then h.right p else h.left p)
          then c
          else if x == p
          then c
          else if x == c
          then h.parent p
          else h.parent x)
  told-parent x ne =
      rw
        (
          set_parent_of-parent h₃ (h₃.right p) p x ne,
          set_parent_of-right h₂ (h₂.left p) p,
          adopted-right,
          set_parent_of-parent h₂ (h₂.left p) p x ne,
          adopted-left,
          adopt-parent swapped p c x ne,
          swapped-left c,
          swapped-right c,
          swapped-parent x,
        )
        (ground arith)
    where
      h₂ : Heap
      h₂ = adopt p c swapped

      h₃ : Heap
      h₃ = set_parent_of (h₂.left p) p h₂

  -- The pointer from above is looked up in the child, which holds the parent's by then.
  told-above : told.parent c ≡ h.parent p
  told-above = ground (arith, told-parent c a.c_null, a)

  told-min : told.min ≡ h.min
  told-min = rw (set_parent_of-min, set_parent_of-min, adopt-min) (unfold swap_fields in refl)

  pub left-swap :
      (x : Ptr)
      → (heap_node_swap p c h).left x ≡ (
          if x == c
          then (if h.left p == c then p else h.left p)
          else if x == p
          then h.left c
          else if (x == h.parent p) && not (h.parent p == null) && (h.left (h.parent p) == p)
          then c
          else h.left x)
  unfolding heap_node_swap
  left-swap x =
      rw (relink-left told p c x, told-above)
        (ground (arith, told-left x, told-left (h.parent p), a))

  pub right-swap :
      (x : Ptr)
      → (heap_node_swap p c h).right x ≡ (
          if x == c
          then (if h.left p == c then h.right p else p)
          else if x == p
          then h.right c
          else if (x == h.parent p) && not (h.parent p == null) && not (h.left (h.parent p) == p)
          then c
          else h.right x)
  unfolding heap_node_swap
  right-swap x =
      rw (relink-right told p c x, told-above)
        (ground (arith, told-right x, told-left (h.parent p), a))

  pub parent-swap :
      (x : Ptr)
      → x ≢ null
      → (heap_node_swap p c h).parent x ≡ (
          if x == h.right c
          then p
          else if x == h.left c
          then p
          else if x == (if h.left p == c then h.right p else h.left p)
          then c
          else if x == p
          then c
          else if x == c
          then h.parent p
          else h.parent x)
  unfolding heap_node_swap
  parent-swap x ne = rw (relink-parent told p c) (told-parent x ne)

  pub min-swap : (heap_node_swap p c h).min ≡ (if h.parent p == null then c else h.min)
  unfolding heap_node_swap
  min-swap = rw (relink-min told p c, told-above, told-min)

-- The count stays.
pub nelts-swap : (h : Heap) (p c : Ptr) → (heap_node_swap p c h).nelts ≡ h.nelts
unfolding heap_node_swap set_parent_of swap_fields adopt relink
nelts-swap h p c = ground arith
