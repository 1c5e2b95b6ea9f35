-- ===== src/Framework/Loop.antt =====
-- The run loop of src/framework.c. What the world does in one turn is a `Round`: the answer of `wait`,
-- what is behind each event, the coroutines that are started, whether somebody has asked the loop to
-- stop, and the clock at the two shrinks of the pool.
pub mod Run
pub mod Stopping
pub mod Turning
use eframework.Base.{
  ℕ, zero, suc, ◌+◌, Bool, true, false, not, ◌&&◌, ◌||◌, List, [], ◌∷◌, ◌++◌, ltb, ◌==◌,
  if◌then◌else◌, Option, none, some,
}
use eframework.Base.Int.{ℤ, pos, negsuc, less, negative}
use eframework.Structure.Memory.{Outcome, done, fault, unfinished}
use eframework.Structure.BufferIo.{Answer, answer, eintr}
use eframework.Coroutine.{Coroutine, Pool, init, can_resume, resumed, shrink}
use eframework.Framework.Wrapped.{Call, associate, dissociate, close, poll_in}
use eframework.Framework.Queue.{
  Accepted, Queued, listen_event, Start, Listener, Served, run_queues, set_result,
}

-- `ef_runtime_t`, without the back end; `free_items` counts the list of free items.
pub record Runtime : Type 0 where
  pub stopping : Bool
  pub shrink_millisecs : ℤ
  pub count_per_shrink : ℤ
  pub pool : Pool
  pub listeners : List Listener
  pub free_items : ℕ

-- One event: new connections at the listening socket of this position, or a coroutine that is resumed,
-- with the status and the time at which it comes back.
pub data Event : Type 0 where
  listening : (index : ℕ) (script : List Accepted) → Event
  woken : (co status now_sec now_usec : ℕ) → Event

-- The listening sockets, the number of free items, and what was done.
pub record Listening : Type 0 where
  pub listeners : List Listener
  pub free_items : ℕ
  pub calls : List Call

abbrev pub requeued : Listener → List Listener → Outcome Queued → Outcome Listening
requeued l listeners (done q) = done (record {
  listeners = record l { queue = q.queue } ∷ listeners;
  free_items = q.free_items;
  calls = q.calls;
})
requeued l listeners fault = fault
requeued l listeners unfinished = unfinished

abbrev pub behind : Listener → Outcome Listening → Outcome Listening
behind l (done o) = done (record o { listeners = l ∷ o.listeners })
behind l fault = fault
behind l unfinished = unfinished

-- The descriptor of a listening socket is closed only when the loop stops.
unfoldable pub accept_at :
    (index : ℕ) → List Accepted → List Listener → (free_items : ℕ) → Outcome Listening
unfolding listen_event
accept_at index script [] free_items = fault
accept_at zero script (l ∷ listeners) free_items = elim l.fd [
  | none ↦ fault
  | some fd ↦ requeued l listeners (listen_event script fd l.queue free_items)
]
accept_at (suc index) script (l ∷ listeners) free_items =
    behind l (accept_at index script listeners free_items)

abbrev pub listened : Runtime → Outcome Listening → Outcome (Runtime × List Call)
listened rt (done o) =
    done (record rt { listeners = o.listeners; free_items = o.free_items }, o.calls)
listened rt fault = fault
listened rt unfinished = unfinished

unfoldable pub handle_event : Event → Runtime → Outcome (Runtime × List Call)
unfolding accept_at
handle_event (listening index script) rt =
    listened rt (accept_at index script rt.listeners rt.free_items)
handle_event (woken co status now_sec now_usec) rt = done (
  if can_resume rt.pool co
      then record rt { pool = resumed rt.pool co status now_sec now_usec }
      else rt,
  [],
)

abbrev pub then_handle :
    (Runtime → Outcome (Runtime × List Call))
    → Outcome (Runtime × List Call)
    → Outcome (Runtime × List Call)
then_handle f fault = fault
then_handle f unfinished = unfinished
then_handle f (done (rt, calls)) = elim (f rt) [
  | fault ↦ fault
  | unfinished ↦ unfinished
  | done out ↦ done (out.0, calls ++ out.1)
]

-- The loop over the events.
unfoldable pub handle_events : List Event → Runtime → Outcome (Runtime × List Call)
unfolding handle_event
handle_events [] rt = done (rt, [])
handle_events (e ∷ events) rt = then_handle (handle_events events) (handle_event e rt)

abbrev pub closed : Option ℕ → List Call
closed none = []
closed (some fd) = dissociate fd false false ∷ close fd ∷ []

-- A closed socket stays while a connection waits in its queue.
unfoldable pub keep_waiting : (queue : List ℕ) → (proc : ℕ) → List Listener → List Listener
keep_waiting [] proc kept = kept
keep_waiting (fd ∷ queue) proc kept = record { fd = none; proc = proc; queue = fd ∷ queue } ∷ kept

-- A stopping loop closes its listening sockets, and gives up those with no connection that waits.
unfoldable pub stop_listeners : List Listener → List Listener × List Call
unfolding keep_waiting
stop_listeners [] = ([], [])
stop_listeners (l ∷ listeners) =
    let (kept, calls) = stop_listeners listeners in
    (keep_waiting l.queue l.proc kept, closed l.fd ++ calls)

pub record Clock : Type 0 where
  pub sec : ℕ
  pub usec : ℕ

-- The shrink at the end of each turn.
unfoldable pub trim : Clock → Runtime → Runtime
trim now rt =
    if ltb 0 rt.pool.free_count && less rt.pool.limit_min (pos rt.pool.full_count)
    then record rt {
      pool = (shrink rt.shrink_millisecs rt.count_per_shrink now.sec now.usec rt.pool).1;
    }
    else rt

-- What a turn ends with: whether the loop ends, the runtime, which connections have been started, each
-- with its procedure, and what was done.
pub record Turned : Type 0 where
  pub ended : Bool
  pub started : List (ℕ × ℕ)
  pub runtime : Runtime
  pub calls : List Call

-- A turn that stops, from `exit_queue:` on.
unfoldable pub stop : Clock → Clock → Runtime → Turned
unfolding stop_listeners trim
stop now later rt =
    let (kept, calls) = stop_listeners rt.listeners in
    let left = record rt { listeners = kept; free_items = 0 } in
    if rt.pool.free_count == rt.pool.full_count
    then record {
      ended = true;
      started = [];
      runtime = record left {
        pool = (shrink (pos 0) (negative rt.pool.full_count) now.sec now.usec rt.pool).1;
      };
      calls = calls;
    }
    else record {
      ended = false;
      started = [];
      runtime = trim later (record left {
        pool = (shrink (pos 0) (negative rt.pool.free_count) now.sec now.usec rt.pool).1;
      });
      calls = calls;
    }

pub record Round : Type 0 where
  pub count : ℤ
  pub errno : ℕ
  pub events : List Event
  pub starts : List Start
  pub asked : Bool
  pub now : Clock
  pub later : Clock

-- `exit_queue:` and behind.
unfoldable pub end_turn : Round → Runtime → Turned
unfolding stop
end_turn r rt =
    if rt.stopping
    then stop r.now r.later rt
    else record { ended = false; started = []; runtime = trim r.later rt; calls = [] }

-- After the queues.
abbrev pub after_queues : Round → Runtime → Served → Runtime
after_queues r rt s = record rt {
  stopping = rt.stopping || r.asked;
  listeners = s.listeners;
  pool = s.pool;
  free_items = s.free_items;
}

unfoldable pub served : Round → Runtime → List Call → Outcome Served → Outcome Turned
unfolding end_turn
served r rt calls (done s) =
    let t = end_turn r (after_queues r rt s) in
    done (record t { started = s.started; calls = calls ++ t.calls })
served r rt calls fault = fault
served r rt calls unfinished = unfinished

unfoldable pub handled : Round → Outcome (Runtime × List Call) → Outcome Turned
unfolding served run_queues
handled r (done (rt, calls)) =
    served r rt calls (run_queues r.starts rt.listeners rt.pool rt.free_items)
handled r fault = fault
handled r unfinished = unfinished

-- One turn behind an answer of `wait` that is not an error.
unfoldable pub turn : Round → Runtime → Outcome Turned
unfolding handle_events handled
turn r rt = handled r (handle_events (if less r.count (pos 0) then [] else r.events) rt)
