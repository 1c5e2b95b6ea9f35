-- ===== src/Framework/Tests.antt =====
-- Runs of src/framework.c on small inputs.
use eframework.Base.{◌≡◌, refl, true, false, some, List, [], ◌∷◌, arith, All}
use eframework.Base.Int.{pos, negsuc}
use eframework.Structure.Memory.{done}
use eframework.Structure.BufferIo.{Answer, answer}
use eframework.Fiber.{status_exited, status_inited}
use eframework.Coroutine.{Coroutine, Pool, init}
use eframework.Coroutine.Members.{count, IsValid, init-IsValid}
use eframework.Framework.Wrapped.{
  target, associate, dissociate, unset, transfer, yield, read, recv, routine_io, stored, to_int,
}
use eframework.Framework.Wrapped.Protocol.{Kept, free, routine_io-Kept}
use eframework.Framework.Wrapped.Served.{Ends, routine_io-Ends, routine_io_lem, routine_io_unknown}
use eframework.Framework.Wrapped.Connected.{
  Network, routine_connect, associated_after, yields, routine_connect_lem,
}
use eframework.Framework.Queue.{Accepted, connection, Start, Listener, run_queues}
use eframework.Framework.Queue.Starting.{IsApart}
use eframework.Framework.Queue.Serving.{Serves, run_queues-Serves, waiting}
use eframework.Framework.Loop.{Runtime, Clock, Round, stop, turn, handle_events}
use eframework.Framework.Loop.Stopping.{stop_lem, stop_frees, IsLeft, closings}
use eframework.Framework.Loop.Turning.{Advances, turn-Advances}

abbrev wait_once : List Answer
wait_once = answer (negsuc 0) 11 ∷ answer (pos 5) 0 ∷ []

routine_io-Kept_example :
    Kept read 7 free (routine_io read 7 (answer (pos 0) 0) (1 ∷ 1 ∷ []) wait_once)
routine_io-Kept_example = routine_io-Kept read 7 (answer (pos 0) 0) (1 ∷ 1 ∷ []) wait_once

routine_io-Ends_example : Ends (routine_io recv 7 (answer (pos 1) 0) (1 ∷ 16 ∷ []) wait_once)
unfolding stored to_int
routine_io-Ends_example =
    routine_io-Ends recv 7 1 0 (1 ∷ 16 ∷ []) (answer (negsuc 0) 11 ∷ []) (answer (pos 5) 0) []
      (refl, tt) refl (omega arith)

routine_io_lem_run :
    routine_io read 7 (answer (pos 0) 0) (1 ∷ 17 ∷ []) wait_once
    ≡ done (record {
      retval = pos 5;
      errno = 0;
      calls =
          target 7
          ∷ associate 7 1 (pos 0)
          ∷ yield 1
          ∷ transfer 7 (negsuc 0) 11
          ∷ unset 7 17
          ∷ yield 17
          ∷ transfer 7 (pos 5) 0
          ∷ dissociate 7 true false
          ∷ [];
    })
unfolding stored
routine_io_lem_run =
    routine_io_lem read 7 0 (1 ∷ 17 ∷ []) (answer (negsuc 0) 11 ∷ []) (answer (pos 5) 0) []
      (refl, (refl, tt)) (refl, tt) refl (omega arith)

routine_io_unknown_run :
    routine_io read 7 (answer (pos 0) 0) (32 ∷ []) []
    ≡ done (record {
      retval = pos 0;
      errno = 0;
      calls = target 7 ∷ associate 7 1 (pos 0) ∷ yield 32 ∷ dissociate 7 true false ∷ [];
    })
routine_io_unknown_run = routine_io_unknown read 7 0 32 [] [] refl refl

-- The connection is refused while the routine waits.
abbrev refusing : Network
refusing = record {
  nonblock = false;
  set_flags = answer (pos 0) 0;
  connected = answer (negsuc 0) 115;
  association = answer (pos 0) 0;
  events = 4;
  error = 111;
}

routine_connect_lem_example :
    (associated_after (routine_connect 7 0 refusing).calls false ≡ false)
    × (yields (routine_connect 7 0 refusing).calls ≡ 1)
routine_connect_lem_example = routine_connect_lem 7 0 refusing

-- Two connections of which the second finds no memory.
abbrev arrivals : List Accepted
arrivals =
    connection 8 false (answer (pos 0) 0) true ∷ connection 9 true (answer (pos 0) 0) false ∷ []

abbrev page : Coroutine
page = record { status = 0; last_sec = 0; last_usec = 0; run_count = 0 }

abbrev no_coroutines : Pool
no_coroutines = record {
  stack_size = 65536;
  limit_min = pos 0;
  limit_max = pos 4;
  full_list = [];
  free_list = [];
  full_count = 0;
  free_count = 0;
  run_count = 0;
  coroutines = λ _. page;
}

abbrev two_starts : List Start
two_starts =
    record { fiber = some (100, page); status = status_inited; now_sec = 1; now_usec = 0 }
    ∷ record { fiber = some (200, page); status = status_exited; now_sec = 1; now_usec = 0 }
    ∷ []

two_starts-IsApart : IsApart two_starts no_coroutines
unfolding count
two_starts-IsApart x = ground arith

abbrev two_listeners : List Listener
two_listeners =
    record { fd = some 3; proc = 1; queue = 8 ∷ [] }
    ∷ record { fd = some 4; proc = 2; queue = 9 ∷ [] }
    ∷ []

no_coroutines-IsValid : IsValid no_coroutines
unfolding init
no_coroutines-IsValid = init-IsValid (λ _. page) 65536 (pos 0) (pos 4)

run_queues-Serves_example :
    Serves two_listeners 1 (run_queues two_starts two_listeners no_coroutines 1)
run_queues-Serves_example =
    run_queues-Serves two_starts two_listeners no_coroutines 1 (omega arith) two_starts-IsApart
      no_coroutines-IsValid

abbrev runtime : Runtime
runtime = record {
  stopping = true;
  shrink_millisecs = pos 1000;
  count_per_shrink = pos 8;
  pool = no_coroutines;
  listeners = two_listeners;
  free_items = 1;
}

abbrev clock : Clock
clock = record { sec = 9; usec = 0 }

stop_lem_example :
    let t = stop clock clock runtime in
    (waiting t.runtime.listeners ≡ waiting two_listeners)
    × All IsLeft t.runtime.listeners
    × (closings t.calls ≡ 3 ∷ 4 ∷ [])
    × (t.ended ≡ true)
stop_lem_example = stop_lem clock clock runtime

-- Two free coroutines, last run before the clock's time, in a pool that is to keep two.
abbrev two_free : Pool
two_free = record no_coroutines {
  limit_min = pos 2;
  full_list = 7 ∷ 6 ∷ [];
  free_list = 6 ∷ 7 ∷ [];
  full_count = 2;
  free_count = 2;
  coroutines = λ _. record page { status = status_exited; last_sec = 3 };
}

two_free-IsValid : IsValid two_free
unfolding count
two_free-IsValid = record {
  full_is = refl;
  free_is = refl;
  once = λ x. ground arith;
  freed = λ x. ground arith;
  limited = refl;
}

stop_frees_example :
    let t = stop clock clock (record runtime { pool = two_free }) in
    (t.ended ≡ true) × (t.runtime.pool.full_count ≡ 0)
stop_frees_example =
    stop_frees clock clock (record runtime { pool = two_free }) two_free-IsValid refl (λ x h. refl)

abbrev round : Round
round = record {
  count = pos 0;
  errno = 0;
  events = [];
  starts = two_starts;
  asked = false;
  now = clock;
  later = clock;
}

handled_nothing : handle_events [] runtime ≡ done (runtime, [])
unfolding handle_events
handled_nothing = refl

turn-Advances_example : Advances two_listeners (turn round runtime)
turn-Advances_example =
    turn-Advances round runtime runtime [] handled_nothing (omega arith) tt two_starts-IsApart
      no_coroutines-IsValid
