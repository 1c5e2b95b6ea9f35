-- ===== src/Framework/Loop/Turning.antt =====
-- One turn of the loop of src/framework.c: the pool and the connections that wait.
use eframework.Base.{
  ℕ, ◌≤◌, Bool, true, false, List, [], ◌∷◌, ◌++◌, All, length, ◌==◌, ◌&&◌, if◌then◌else◌, ◌≡◌, refl,
  sym, ap, ◌∙◌, inl, inr, arith, Bool-cases, ltb,
}
use eframework.Base.Int.{pos, negative, less}
use eframework.Structure.Memory.{Outcome, done, fault, unfinished}
use eframework.Coroutine.{can_resume}
use eframework.Coroutine.Members.{count, IsValid, resumed-IsValid}
use eframework.Coroutine.Shrink.{shrink_lem}
use eframework.Framework.Wrapped.{Call}
use eframework.Framework.Queue.{Listener, Served}
use eframework.Framework.Queue.Starting.{IsApart, resumed_full}
use eframework.Framework.Queue.Serving.{waiting, Serves, run_queues-Serves}
use eframework.Framework.Loop.{
  Runtime, Event, listening, woken, Listening, listened, handle_event, then_handle, handle_events,
  Clock, trim, Turned, stop, Round, end_turn, after_queues, served, handled, turn,
}
use mathlib.Core.Path.{subst}
use eframework.Framework.Loop.Stopping.{stop_lem}

-- An event resumes only a coroutine of the pool.
abbrev pub IsMember : (full_list : List ℕ) → Event → Type 0
IsMember full_list (listening index script) = Unit
IsMember full_list (woken co status now_sec now_usec) = count co full_list ≡ 1

-- Events leave the pool valid, and the same coroutines in it.
abbrev Keeps : (full_list : List ℕ) → Outcome (Runtime × List Call) → Type 0
Keeps full_list (done (rt, calls)) = IsValid rt.pool × (rt.pool.full_list ≡ full_list)
Keeps full_list fault = Unit
Keeps full_list unfinished = Unit

listened-Keeps :
    (rt : Runtime) (o : Outcome Listening)
    → IsValid rt.pool
    → Keeps rt.pool.full_list (listened rt o)
listened-Keeps rt (done o) v = (v, refl)
listened-Keeps rt fault v = tt
listened-Keeps rt unfinished v = tt

handle_event-Keeps :
    (e : Event) (rt : Runtime)
    → IsMember rt.pool.full_list e
    → IsValid rt.pool
    → Keeps rt.pool.full_list (handle_event e rt)
unfolding handle_event
handle_event-Keeps (listening index script) rt m v = listened-Keeps rt _ v
handle_event-Keeps (woken co status now_sec now_usec) rt m v =
    elim (Bool-cases (can_resume rt.pool co)) [
      | inl r ↦ rw r (
        resumed-IsValid rt.pool co status now_sec now_usec m r v,
        resumed_full rt.pool co status now_sec now_usec,
      )
      | inr r ↦ rw r (v, refl)
    ]

then_handle-Keeps :
    (f : Runtime → Outcome (Runtime × List Call)) (full_list : List ℕ)
    (o : Outcome (Runtime × List Call))
    → ((rt : Runtime) → IsValid rt.pool → rt.pool.full_list ≡ full_list → Keeps full_list (f rt))
    → Keeps full_list o
    → Keeps full_list (then_handle f o)
then_handle-Keeps f full_list fault ih k = tt
then_handle-Keeps f full_list unfinished ih k = tt
then_handle-Keeps f full_list (done (rt, calls)) ih (v, e) = joined (f rt) (ih rt v e)
  where
    joined :
        (o : Outcome (Runtime × List Call))
        → Keeps full_list o
        → Keeps full_list (elim o [
          | fault ↦ fault
          | unfinished ↦ unfinished
          | done out ↦ done (out.0, calls ++ out.1)
        ])
    joined fault k = tt
    joined unfinished k = tt
    joined (done out) k = k

handle_events-Keeps :
    (events : List Event) (full_list : List ℕ) (rt : Runtime)
    → All (IsMember full_list) events
    → IsValid rt.pool
    → rt.pool.full_list ≡ full_list
    → Keeps full_list (handle_events events rt)
unfolding handle_events
handle_events-Keeps [] full_list rt m v e = (v, e)
handle_events-Keeps (x ∷ events) full_list rt (m, ms) v e =
    let first : Keeps full_list (handle_event x rt) =
      subst (λ l. Keeps l (handle_event x rt)) e
        (handle_event-Keeps x rt (subst (λ l. IsMember l x) (sym e) m) v) in
    then_handle-Keeps (handle_events events) full_list (handle_event x rt)
      (λ next valid same. handle_events-Keeps events full_list next ms valid same) first

trim-IsValid : (now : Clock) (rt : Runtime) → IsValid rt.pool → IsValid (trim now rt).pool
unfolding trim
trim-IsValid now rt v =
    elim (Bool-cases
      (ltb 0 rt.pool.free_count && less rt.pool.limit_min (pos rt.pool.full_count))) [
        | inl e ↦
            rw e (shrink_lem rt.shrink_millisecs rt.count_per_shrink now.sec now.usec rt.pool v).0
        | inr e ↦ rw e v
      ]

stop-IsValid :
    (now later : Clock) (rt : Runtime) → IsValid rt.pool → IsValid (stop now later rt).runtime.pool
unfolding stop
stop-IsValid now later rt v = elim (Bool-cases (rt.pool.free_count == rt.pool.full_count)) [
  | inl e ↦ rw e (shrink_lem (pos 0) (negative rt.pool.full_count) now.sec now.usec rt.pool v).0
  | inr e ↦ rw e (
      trim-IsValid later _
        (shrink_lem (pos 0) (negative rt.pool.free_count) now.sec now.usec rt.pool v).0)
]

trim_listeners : (now : Clock) (rt : Runtime) → (trim now rt).listeners ≡ rt.listeners
unfolding trim
trim_listeners now rt = ground arith

-- What holds of both branches.
both : (P : Turned → Type 0) (b : Bool) (x y : Turned) → P x → P y → P (if b then x else y)
both P true x y p q = p
both P false x y p q = q

end_turn_lem :
    (r : Round) (rt : Runtime)
    → IsValid rt.pool
    → IsValid (end_turn r rt).runtime.pool
      × (waiting (end_turn r rt).runtime.listeners ≡ waiting rt.listeners)
unfolding end_turn
end_turn_lem r rt v =
    both (λ t. IsValid t.runtime.pool × (waiting t.runtime.listeners ≡ waiting rt.listeners))
      rt.stopping _ _ (stop-IsValid r.now r.later rt v, (stop_lem r.now r.later rt).0)
      (trim-IsValid r.later rt v, ap waiting (trim_listeners r.later rt))

-- A turn that comes to its end: the pool is valid, and a front part of what waited has been started.
abbrev pub Advances : (before : List Listener) → Outcome Turned → Type 0
Advances before (done t) =
    IsValid t.runtime.pool × (t.started ++ waiting t.runtime.listeners ≡ waiting before)
Advances before fault = ⊥
Advances before unfinished = ⊥

served-Advances :
    (r : Round) (rt : Runtime) (calls : List Call) (o : Outcome Served)
    → Serves rt.listeners rt.free_items o
    → Advances rt.listeners (served r rt calls o)
unfolding served
served-Advances r rt calls fault h = h
served-Advances r rt calls unfinished h = h
served-Advances r rt calls (done s) (order, same, items, valid) =
    let (v, w) = end_turn_lem r (after_queues r rt s) valid in
    (v, ap (λ t. s.started ++ t) w ∙ order)

-- The events that a turn handles.
abbrev pub seen : Round → List Event
seen r = if less r.count (pos 0) then [] else r.events

-- A turn of `ef_run_loop` whose events have been handled, on a valid pool, where the events resume
-- coroutines of the pool, new fibers are not in the pool, and there are as many answers for new
-- coroutines as connections wait: it comes to its end with a valid pool, and the connections that
-- it starts, followed by those that still wait, are those that waited, in their order, also if the
-- loop stops.
pub turn-Advances :
    (r : Round) (rt next : Runtime) (calls : List Call)
    → handle_events (seen r) rt ≡ done (next, calls)
    → length (waiting next.listeners) ≤ length r.starts
    → All (IsMember rt.pool.full_list) (seen r)
    → IsApart r.starts rt.pool
    → IsValid rt.pool
    → Advances next.listeners (turn r rt)
unfolding turn handled
turn-Advances r rt next calls e n m a v =
    let (valid, same) : Keeps rt.pool.full_list (done (next, calls)) =
      rw e at (handle_events-Keeps (seen r) rt.pool.full_list rt m v refl) in
    let apart : IsApart r.starts next.pool = rw same a in
    rw e (
      served-Advances r next calls _
        (run_queues-Serves r.starts next.listeners next.pool next.free_items n apart valid))
