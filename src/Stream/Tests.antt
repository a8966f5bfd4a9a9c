-- ===== src/Stream/Tests.antt =====
-- Runs of the output of a stream (libuv/src/unix/stream.c).
use libuv_analyse.Base.{◌≡◌, refl, true, false, List, [], ◌∷◌, ◌++◌, Option, none, some, arith}
use libuv_analyse.Heap.{Ptr, null}
use libuv_analyse.Loop.{HandleType}
use libuv_analyse.Stream.{
  Errno, enomem, einval, Buf, Req, Stream, Answer, accepts, interrupted, refuses, World, bytes_of,
  count_bufs,
}
use libuv_analyse.Stream.Output.{call_system, freed, write, wrote}
use libuv_analyse.Stream.Calls.{
  check_before_write, enqueue, ok, error, write2, Called, try_write2, stream_destroy,
}
use libuv_analyse.Stream.Sizes.{total}
use libuv_analyse.Stream.Balance.{held, held_all, IsBalanced}
use libuv_analyse.Stream.Bytes.{flow, InOrder}
use libuv_analyse.Stream.Drained.{Keeps, stream_destroy-drained}
use libuv_analyse.Stream.Request.{write2_lem}
use libuv_analyse.Stream.Outcome.{Outcome, write2-Outcome}
use libuv_analyse.Stream.Progress.{IsEnough, write-InOrder}

abbrev world : World
world = record {
  iovmax = 1024;
  peer = λ p. record { type = HandleType.tcp; fd = some 9; closing = false };
  call = λ c p e s. s;
}

abbrev open_stream : Stream
open_stream = record {
  type = HandleType.tcp;
  ipc = false;
  fd = some 5;
  writable = true;
  shutting = false;
  shut = false;
  closing = false;
  closed = false;
  blocking_writes = false;
  connect_req = none;
  shutdown_req = none;
  delayed_error = none;
  write_queue = [];
  write_completed_queue = [];
  moved = [];
  write_queue_size = 0;
  pollout = false;
  fed = false;
  active_reqs = 2;
  sent = [];
}

abbrev two_bufs : List Buf
two_bufs = (104 ∷ 101 ∷ 108 ∷ []) ∷ (108 ∷ 111 ∷ []) ∷ []

abbrev answers : List Answer
answers = interrupted ∷ accepts 4 ∷ []

-- The request behind four of its five bytes.
abbrev left_over : Req
left_over = record {
  self = 7;
  cb = 8;
  bufs = some ((111 ∷ []) ∷ []);
  error = none;
  send_handle = null;
}

abbrev partly : Stream
partly = record open_stream {
  write_queue = left_over ∷ [];
  write_queue_size = 1;
  pollout = true;
  active_reqs = 3;
  sent = 104 ∷ 101 ∷ 108 ∷ 108 ∷ [];
}

write2_run : write2 1 world true answers 7 two_bufs null 8 open_stream ≡ some (ok partly [])
unfolding write2 bytes_of count_bufs
write2_run = refl

open-IsBalanced : IsBalanced 2 open_stream
unfolding held_all
open-IsBalanced = record { size = refl; word = omega arith; registered = refl }

partly-IsBalanced : IsBalanced 2 partly
unfolding held_all held total
partly-IsBalanced = record { size = refl; word = omega arith; registered = refl }

write2_lem_example :
    (t : Stream) × (left : List Answer) × (write2 3 world true answers 7 two_bufs null 8 open_stream
      ≡ some (ok t left))
    × IsBalanced 2 t
    × InOrder (enqueue 7 two_bufs null 8 open_stream) t
    × (flow (enqueue 7 two_bufs null 8 open_stream) ≡ flow open_stream ++ bytes_of two_bufs)
unfolding total IsEnough check_before_write
write2_lem_example =
    write2_lem 3 2 world true answers 7 two_bufs null 8 open_stream (omega arith) tt (omega arith)
      (omega arith) open-IsBalanced refl refl refl refl

abbrev five_bufs : List Buf
five_bufs = (1 ∷ []) ∷ (2 ∷ []) ∷ (3 ∷ []) ∷ (4 ∷ []) ∷ (5 ∷ []) ∷ []

abbrev no_memory : Stream
no_memory = record open_stream { active_reqs = 3 }

no_memory_run :
    write2 1 world false answers 7 five_bufs null 8 open_stream ≡ some (error enomem no_memory)
unfolding write2 bytes_of count_bufs
no_memory_run = refl

write2-Outcome_example :
    (o : Called) × (write2 3 world false answers 7 five_bufs null 8 open_stream ≡ some o)
    × Outcome 2 world false five_bufs null open_stream o
unfolding total IsEnough
write2-Outcome_example =
    write2-Outcome 3 2 world false answers 7 five_bufs null 8 open_stream (omega arith) tt
      (omega arith) (omega arith) open-IsBalanced refl refl

abbrev written_all : Stream
written_all = record partly {
  write_queue = [];
  write_completed_queue = record left_over { bufs = none } ∷ [];
  write_queue_size = 0;
  fed = true;
  sent = 104 ∷ 101 ∷ 108 ∷ 108 ∷ 111 ∷ [];
}

write_run : write 1 world (accepts 10 ∷ []) partly ≡ some (written_all, [])
unfolding write bytes_of freed
write_run = refl

-- A stream that blocks goes round until the system refuses.
write-InOrder_example :
    (t : Stream) × (left : List Answer) × (write 3 world
        (accepts 0 ∷ refuses 32 ∷ [])
        (record partly { blocking_writes = true })
      ≡ some (t, left))
    × InOrder (record partly { blocking_writes = true }) t
unfolding IsEnough
write-InOrder_example =
    write-InOrder 3 world (accepts 0 ∷ refuses 32 ∷ []) (record partly { blocking_writes = true })
      (omega arith) tt

abbrev closed_stream : Stream
closed_stream = record partly { fd = none; writable = false; closing = true; closed = true }

callbacks-Keeps :
    (c p : Ptr) (e : Option Errno) (t : Stream) → t.fd ≡ none → Keeps t (world.call c p e t)
callbacks-Keeps c p e t h = record {
  fd = refl;
  write_queue = refl;
  completed = refl;
  moved = refl;
  size = refl;
}

closed-IsBalanced : IsBalanced 2 closed_stream
closed-IsBalanced = record {
  size = partly-IsBalanced.size;
  word = partly-IsBalanced.word;
  registered = partly-IsBalanced.registered;
}

stream_destroy-drained_example :
    (t : Stream) × (stream_destroy 2 world (λ p. p) closed_stream ≡ some t)
    × (t.write_queue_size ≡ 0)
    × (t.write_queue ≡ [])
    × (t.write_completed_queue ≡ [])
stream_destroy-drained_example =
    stream_destroy-drained 2 2 world (λ p. p) closed_stream callbacks-Keeps refl refl
      closed-IsBalanced (omega arith)

-- A TCP stream sends no handles.
checked_handle :
    write2 1 world true (accepts 1 ∷ []) 7 ((1 ∷ []) ∷ []) 6 8 open_stream
    ≡ some (error einval open_stream)
unfolding write2
checked_handle = refl

-- uv_try_write2 sends it.
unchecked_handle :
    try_write2 world (accepts 1 ∷ []) ((1 ∷ []) ∷ []) 6 open_stream
    ≡ some (wrote 1, record open_stream { sent = 1 ∷ [] })
unfolding try_write2 call_system bytes_of
unchecked_handle = refl
