-- ===== src/Close/Tests.antt =====
-- Runs of uv_close and uv_loop_close (libuv/src/unix/core.c, libuv/src/uv-common.c).
use libuv_analyse.Base.{◌≡◌, ◌≢◌, ◌⊎◌, inl, refl, true}
use libuv_analyse.Heap.{Ptr}
use libuv_analyse.Loop.{success, ebusy, Loop}
use libuv_analyse.Loop.Count.{occurrences}
use libuv_analyse.Run.Sound.{IsPending, IsSound}
use libuv_analyse.Run.Tests.{busy, busy-IsSound}
use libuv_analyse.Close.{close, loop_close}
use libuv_analyse.Close.Sound.{close-IsSound}
use libuv_analyse.Close.Ends.{HasOther, loop_close_lem}

-- The active timer is closed while another handle waits in the list.
close-IsSound_example :
    IsSound 3 (close (λ p l. l) 7 71 busy)
    × (occurrences 7 (close (λ p l. l) 7 71 busy).closing_handles ≡ 1)
    × IsPending ((close (λ p l. l) 7 71 busy).handle 7)
close-IsSound_example = close-IsSound 3 (λ p l. l) 7 71 busy busy-IsSound refl refl (inl refl)

-- What uv__loop_close does is not modelled; here it does nothing.
abbrev released : Loop → Loop
released l = l

loop_close_example :
    (loop_close released busy ≡ (success, released busy))
      × (busy.active_reqs ≡ 0)
      × ((x : Ptr) → occurrences x busy.handle_queue ≢ 0 → (busy.handle x).internal ≡ true)
    ⊎ (loop_close released busy ≡ (ebusy, busy))
      × ((busy.active_reqs ≢ 0) ⊎ HasOther busy.handle busy.handle_queue)
loop_close_example = loop_close_lem released busy
