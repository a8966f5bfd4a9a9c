-- ===== src/Io/Tests.antt =====
-- Runs of the watchers of descriptors (libuv/src/unix/core.c).
use libuv_analyse.Base.{◌≡◌, refl, inr, [], ◌∷◌, some, arith}
use libuv_analyse.Io.{
  IoLoop, next_power_of_two, maybe_resize, io_start, io_stop, start_fd, stop_fd, register,
  unregister,
}
use libuv_analyse.Io.Count.{IsTable, used, io_start_stop-IsTable}

abbrev empty_loop : IoLoop
empty_loop = record {
  io = λ p. record { cb = 9; fd = some p; events = 0; pevents = 0 };
  watchers = [];
  nwatchers = 0;
  nfds = 0;
  watcher_queue = [];
  pending_queue = [];
}

power_run : next_power_of_two 9 ≡ 16
unfolding next_power_of_two
power_run = refl

-- The watcher 3, of the descriptor 3.
start_run : (io_start 3 1 empty_loop).watchers ≡ 0 ∷ 0 ∷ 0 ∷ 3 ∷ 0 ∷ 0 ∷ 0 ∷ 0 ∷ []
unfolding io_start start_fd maybe_resize register next_power_of_two
start_run = refl

stop_run : (io_stop 3 1 (io_start 3 1 empty_loop)).nfds ≡ 0
unfolding io_start io_stop start_fd stop_fd maybe_resize register unregister next_power_of_two
stop_run = refl

table : IsTable empty_loop
unfolding used
table = record { room = omega arith; small = omega arith; counted = refl }

io_start_stop-IsTable_example : IsTable (io_start 3 1 empty_loop) × IsTable (io_stop 3 1 empty_loop)
io_start_stop-IsTable_example =
    io_start_stop-IsTable 3 1 empty_loop (omega arith) (inr (3, refl, omega arith)) table
