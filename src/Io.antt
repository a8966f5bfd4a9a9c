-- ===== src/Io.antt =====
-- The watchers of descriptors: uv__io_init, uv__io_start, uv__io_stop, uv__io_close, uv__io_feed, uv__io_active,
-- uv__fd_exists, maybe_resize and next_power_of_two (libuv/src/unix/core.c).
pub mod Bound
pub mod Count
mod Tests
use libuv_analyse.Base.{
  ℕ, zero, suc, ◌+◌, ◌-◌, ◌*◌, ◌/◌, ◌%◌, ◌^◌, bit_and, bit_or, bit_xor, Bool, true, false, ◌&&◌,
  not, List, [], ◌∷◌, ◌++◌, Option, none, some, get_or, set, take, replicate, ltb, leb, ◌==◌,
  if◌then◌else◌,
}
use libuv_analyse.Heap.{Ptr, null}

-- `uv__io_t`; the descriptor -1 is `none`.
pub record Io : Type 0 where
  pub cb : Ptr
  pub fd : Option ℕ
  pub events : ℕ
  pub pevents : ℕ

-- The fields of the loop for its watchers. `watchers` is NULL where it is empty, and else has two entries more
-- than `nwatchers`. A queue is the list of the watchers in it.
pub record IoLoop : Type 0 where
  pub io : Ptr → Io
  pub watchers : List Ptr
  pub nwatchers : ℕ
  pub nfds : ℕ
  pub watcher_queue : List Ptr
  pub pending_queue : List Ptr

pub set_io : Ptr → Io → IoLoop → IoLoop
set_io w v l = record l { io = λ p. if p == w then v else l.io p }

pub without : Ptr → List Ptr → List Ptr
without w [] = []
without w (p ∷ q) = if p == w then without w q else p ∷ without w q

pub is_in : Ptr → List Ptr → Bool
is_in w [] = false
is_in w (p ∷ q) = if p == w then true else is_in w q

-- `if (QUEUE_EMPTY(&w->...)) QUEUE_INSERT_TAIL(...)`: the node of a watcher is empty while it is in no queue.
pub queued : Ptr → List Ptr → List Ptr
unfolding is_in
queued w q = if is_in w q then q else q ++ (w ∷ [])

unfoldable pub next_power_of_two : ℕ → ℕ
next_power_of_two val =
    let v₀ = (val + (2 ^ 32 - 1)) % 2 ^ 32 in
    let v₁ = bit_or v₀ (v₀ / 2 ^ 1) in
    let v₂ = bit_or v₁ (v₁ / 2 ^ 2) in
    let v₄ = bit_or v₂ (v₂ / 2 ^ 4) in
    let v₈ = bit_or v₄ (v₄ / 2 ^ 8) in let v₁₆ = bit_or v₈ (v₈ / 2 ^ 16) in (v₁₆ + 1) % 2 ^ 32

-- The memory is there: uv__reallocf that fails ends the program. It keeps the entries, those behind them are set to
-- NULL, and the last two entries are moved to the new end.
unfoldable pub maybe_resize : ℕ → IoLoop → IoLoop
maybe_resize len l =
    let nwatchers = (next_power_of_two ((len + 2) % 2 ^ 32) + (2 ^ 32 - 2)) % 2 ^ 32 in
    if leb len l.nwatchers then l else record l {
      watchers =
          take l.nwatchers l.watchers
          ++ (replicate (nwatchers - l.nwatchers) null
              ++ (get_or l.watchers l.nwatchers null
                  ∷ get_or l.watchers (l.nwatchers + 1) null
                  ∷ []));
      nwatchers = nwatchers;
    }

-- The counts of kqueue are left out. A new watcher is in no queue.
unfoldable pub io_init : Ptr → Ptr → Option ℕ → IoLoop → IoLoop
unfolding set_io
io_init w cb fd l = set_io w (record { cb = cb; fd = fd; events = 0; pevents = 0 }) l

-- `if (loop->watchers[w->fd] == NULL) ...`.
unfoldable pub register : Ptr → ℕ → IoLoop → IoLoop
register w fd l =
    if get_or l.watchers fd null == null
    then record l { watchers = set l.watchers fd w; nfds = (l.nfds + 1) % 2 ^ 32 }
    else l

-- uv__io_start behind its assertions, of which one is that the descriptor is not -1.
unfoldable pub start_fd : Ptr → ℕ → ℕ → IoLoop → IoLoop
unfolding set_io queued
start_fd w fd events l =
    let v = l.io w in
    let l₁ = maybe_resize (fd + 1) (set_io w (record v { pevents = bit_or v.pevents events }) l) in
    if v.events == bit_or v.pevents events
    then l₁
    else register w fd (record l₁ { watcher_queue = queued w l₁.watcher_queue })

unfoldable pub io_start : Ptr → ℕ → IoLoop → IoLoop
io_start w events l = elim (l.io w).fd [ none ↦ l | some fd ↦ start_fd w fd events l ]

-- `if (w == loop->watchers[w->fd])`.
unfoldable pub unregister : Ptr → ℕ → IoLoop → IoLoop
unregister w fd l =
    if get_or l.watchers fd null == w
    then record l { watchers = set l.watchers fd null; nfds = l.nfds - 1 }
    else l

-- `a & ~b`, of words.
abbrev pub and_not : ℕ → ℕ → ℕ
and_not a b = bit_and a (bit_xor (2 ^ 32 - 1) b)

unfoldable pub stop_fd : Ptr → ℕ → ℕ → IoLoop → IoLoop
unfolding set_io queued without
stop_fd w fd events l =
    let v = l.io w in
    let left = and_not v.pevents events in
    if leb l.nwatchers fd
    then l
    else if left == 0
    then unregister w fd (record (set_io w (record v { pevents = 0; events = 0 }) l) {
      watcher_queue = without w l.watcher_queue;
    })
    else record (set_io w (record v { pevents = left }) l) {
      watcher_queue = queued w l.watcher_queue;
    }

unfoldable pub io_stop : Ptr → ℕ → IoLoop → IoLoop
io_stop w events l = elim (l.io w).fd [ none ↦ l | some fd ↦ stop_fd w fd events l ]

-- POLLIN | POLLOUT | UV__POLLRDHUP | UV__POLLPRI.
abbrev pub all_events : ℕ
all_events = bit_or (bit_or (bit_or 1 4) 0x2000) 2

-- uv__platform_invalidate_fd belongs to the platform.
unfoldable pub io_close : (ℕ → IoLoop → IoLoop) → Ptr → IoLoop → IoLoop
unfolding without
io_close invalidate_fd w l =
    let l₁ = io_stop w all_events l in
    let l₂ = record l₁ { pending_queue = without w l₁.pending_queue } in
    elim (l₂.io w).fd [ none ↦ l₂ | some fd ↦ invalidate_fd fd l₂ ]

unfoldable pub io_feed : Ptr → IoLoop → IoLoop
unfolding queued
io_feed w l = record l { pending_queue = queued w l.pending_queue }

unfoldable pub io_active : Ptr → ℕ → IoLoop → Bool
io_active w events l = not (bit_and (l.io w).pevents events == 0)

unfoldable pub fd_exists : ℕ → IoLoop → Bool
fd_exists fd l = ltb fd l.nwatchers && not (get_or l.watchers fd null == null)
