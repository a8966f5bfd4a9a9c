-- ===== src/Io/Count.antt =====
-- `nfds` (libuv/src/unix/core.c) counts the descriptors that have a watcher.
use libuv_analyse.Base.{
  ℕ, zero, suc, ◌+◌, ◌-◌, ◌%◌, ◌^◌, bit_or, ◌≤◌, ◌<◌, ◌≡◌, ◌≢◌, refl, sym, ap, ◌∙◌, ◌⊎◌, inl, inr,
  by_if, List, [], ◌∷◌, ◌++◌, none, some, length, length-append, length-take, length-replicate,
  length-set, get_or, set, take, replicate, leb, ◌==◌, if◌then◌else◌, arith,
}
use libuv_analyse.Heap.{Ptr, null}
use libuv_analyse.Io.{
  IoLoop, set_io, next_power_of_two, maybe_resize, register, start_fd, io_start, unregister,
  and_not, stop_fd, io_stop,
}
use libuv_analyse.Io.Bound.{next_power_of_two_bound}

-- How many of the first `n` entries are not NULL.
unfoldable pub used : ℕ → List Ptr → ℕ
used zero ws = 0
used (suc n) [] = 0
used (suc n) (w ∷ ws) = (if w == null then 0 else 1) + used n ws

used_le : (n : ℕ) (ws : List Ptr) → used n ws ≤ n
unfolding used
used_le zero ws = omega arith
used_le (suc n) [] = omega arith
used_le (suc n) (w ∷ ws) = ground (arith, used_le n ws)

used_nulls : (n : ℕ) (ws : List Ptr) → used n (replicate n null ++ ws) ≡ 0
unfolding used
used_nulls zero ws = refl
used_nulls (suc n) ws = omega (arith, used_nulls n ws)

used-take :
    (k n : ℕ) (ws more : List Ptr)
    → k ≤ length ws
    → k ≤ n
    → used n (take k ws ++ (replicate (n - k) null ++ more)) ≡ used k ws
unfolding used
used-take zero n ws more room fits = let all : n - 0 ≡ n = omega arith in rw all (used_nulls n more)
used-take (suc k) n [] more room fits = absurd (omega (arith, room))
used-take (suc k) zero (w ∷ ws) more room fits = absurd (omega (arith, fits))
used-take (suc k) (suc n) (w ∷ ws) more room fits =
    let same : suc n - suc k ≡ n - k = omega arith in
    let rest = used-take k n ws more (omega (arith, room)) (omega (arith, fits)) in
    rw same (rw rest refl)

used-set_new :
    (n i : ℕ) (ws : List Ptr) (w : Ptr)
    → i < n
    → n ≤ length ws
    → get_or ws i null ≡ null
    → w ≢ null
    → used n (set ws i w) ≡ used n ws + 1
unfolding used
used-set_new zero i ws w low room free some_w = absurd (omega (arith, low))
used-set_new (suc n) i [] w low room free some_w = absurd (omega (arith, room))
used-set_new (suc n) zero (x ∷ ws) w low room free some_w = ground (arith, free, some_w)
used-set_new (suc n) (suc i) (x ∷ ws) w low room free some_w =
    omega (arith, used-set_new n i ws w (omega (arith, low)) (omega (arith, room)) free some_w)

used-set-null :
    (n i : ℕ) (ws : List Ptr)
    → i < n
    → n ≤ length ws
    → get_or ws i null ≢ null
    → used n (set ws i null) + 1 ≡ used n ws
unfolding used
used-set-null zero i ws low room taken = absurd (omega (arith, low))
used-set-null (suc n) i [] low room taken = absurd (omega (arith, room))
used-set-null (suc n) zero (x ∷ ws) low room taken = ground (arith, taken)
used-set-null (suc n) (suc i) (x ∷ ws) low room taken =
    omega (arith, used-set-null n i ws (omega (arith, low)) (omega (arith, room)) taken)

-- The table of the watchers has its entries, and `nfds` is the number of those in use.
pub record IsTable (l : IoLoop) : Type 0 where
  pub room : l.nwatchers ≤ length l.watchers
  pub small : l.nwatchers ≤ 2 ^ 31
  pub counted : l.nfds ≡ used l.nwatchers l.watchers

maybe_resize-IsTable :
    (len : ℕ) (l : IoLoop)
    → len + 2 ≤ 2 ^ 31
    → IsTable l
    → IsTable (maybe_resize len l) × (len ≤ (maybe_resize len l).nwatchers)
unfolding maybe_resize
maybe_resize-IsTable len l bound t =
    let wanted : (len + 2) % 2 ^ 32 ≡ len + 2 = omega (arith, bound) in
    let (low, high) = next_power_of_two_bound (len + 2) (omega arith) bound in
    let power : ℕ = next_power_of_two ((len + 2) % 2 ^ 32) in
    let power_is : power ≡ next_power_of_two (len + 2) = ap next_power_of_two wanted in
    let size : ℕ = (power + (2 ^ 32 - 2)) % 2 ^ 32 in
    let size_is : size ≡ power - 2 = omega (arith, power_is, low, high) in
    let end : List Ptr =
      get_or l.watchers l.nwatchers null ∷ get_or l.watchers (l.nwatchers + 1) null ∷ [] in
    let front : List Ptr = take l.nwatchers l.watchers in
    let nulls : List Ptr = replicate (size - l.nwatchers) null in
    by_if (λ (m : IoLoop). IsTable m × (len ≤ m.nwatchers)) (leb len l.nwatchers)
      (λ enough. (t, ground (arith, enough)))
      (λ few.
        let grows : l.nwatchers < len = ground (arith, few) in
        (
          record {
            room = omega (
              arith,
              length-append front (nulls ++ end),
              length-append nulls end,
              length-take l.nwatchers l.watchers,
              length-replicate {A = Ptr} (size - l.nwatchers) null,
              t.room,
            );
            small = omega (arith, size_is, power_is, high);
            counted =
                t.counted
                ∙ sym (
                    used-take l.nwatchers size l.watchers end t.room
                      (omega (arith, size_is, power_is, low, grows)));
          },
          omega (arith, size_is, power_is, low),
        ))

register-IsTable :
    (w : Ptr) (fd : ℕ) (l : IoLoop)
    → w ≢ null
    → fd < l.nwatchers
    → IsTable l
    → IsTable (register w fd l)
unfolding register
register-IsTable w fd l some_w low t =
    by_if IsTable (get_or l.watchers fd null == null)
      (λ free.
        let more =
          used-set_new l.nwatchers fd l.watchers w low t.room (ground (arith, free)) some_w in
        let top = used_le l.nwatchers (set l.watchers fd w) in
        record {
          room = omega (arith, length-set l.watchers fd w, t.room);
          small = t.small;
          counted = omega (arith, more, top, t.counted, t.small);
        })
      (λ _. t)

unregister-IsTable :
    (w : Ptr) (fd : ℕ) (l : IoLoop)
    → w ≢ null
    → fd < l.nwatchers
    → IsTable l
    → IsTable (unregister w fd l)
unfolding unregister
unregister-IsTable w fd l some_w low t =
    by_if IsTable (get_or l.watchers fd null == w)
      (λ here.
        let taken : get_or l.watchers fd null ≢ null = λ e. some_w (ground (arith, here, e)) in
        let less = used-set-null l.nwatchers fd l.watchers low t.room taken in
        record {
          room = omega (arith, length-set l.watchers fd null, t.room);
          small = t.small;
          counted = omega (arith, less, t.counted);
        })
      (λ _. t)

start_fd-IsTable :
    (w : Ptr) (fd events : ℕ) (l : IoLoop)
    → w ≢ null
    → fd + 3 ≤ 2 ^ 31
    → IsTable l
    → IsTable (start_fd w fd events l)
unfolding start_fd set_io
start_fd-IsTable w fd events l some_w bound t =
    let v = l.io w in
    let l₀ = set_io w (record v { pevents = bit_or v.pevents events }) l in
    let (table, room) =
      maybe_resize-IsTable (fd + 1) l₀ (omega (arith, bound))
        (record { room = t.room; small = t.small; counted = t.counted }) in
    by_if IsTable (v.events == bit_or v.pevents events) (λ _. table)
      (λ _.
        register-IsTable w fd _ some_w (omega (arith, room))
          (record { room = table.room; small = table.small; counted = table.counted }))

stop_fd-IsTable :
    (w : Ptr) (fd events : ℕ) (l : IoLoop) → w ≢ null → IsTable l → IsTable (stop_fd w fd events l)
unfolding stop_fd set_io
stop_fd-IsTable w fd events l some_w t =
    by_if IsTable (leb l.nwatchers fd) (λ _. t)
      (λ inside.
        by_if IsTable (and_not (l.io w).pevents events == 0)
          (λ _.
            unregister-IsTable w fd _ some_w (ground (arith, inside))
              (record { room = t.room; small = t.small; counted = t.counted }))
          (λ _. record { room = t.room; small = t.small; counted = t.counted }))

-- uv__io_start and uv__io_stop of a watcher that is not NULL, whose descriptor is -1 or at most INT_MAX - 2, keep the
-- table of the watchers: it has `nwatchers` entries at least, and `nfds` is how many of these are not NULL.
pub io_start_stop-IsTable :
    (w : Ptr) (events : ℕ) (l : IoLoop)
    → w ≢ null
    → ((l.io w).fd ≡ none) ⊎ ((fd : ℕ) × ((l.io w).fd ≡ some fd) × (fd + 3 ≤ 2 ^ 31))
    → IsTable l
    → IsTable (io_start w events l) × IsTable (io_stop w events l)
unfolding io_start io_stop
io_start_stop-IsTable w events l some_w (inl e) t = rw (io_start, io_stop, e) (t, t)
io_start_stop-IsTable w events l some_w (inr (fd, e, bound)) t =
    rw (io_start, io_stop, e)
      (start_fd-IsTable w fd events l some_w bound t, stop_fd-IsTable w fd events l some_w t)
