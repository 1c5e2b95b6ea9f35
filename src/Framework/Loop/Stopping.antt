-- ===== src/Framework/Loop/Stopping.antt =====
-- A loop of src/framework.c that stops: its listening sockets, its queues, and its pool.
use eframework.Base.{
  ℕ, ◌≤◌, true, false, List, [], ◌∷◌, ◌++◌, All, ◌==◌, ◌≡◌, refl, ap, inl, inr, arith, Bool-cases,
  Option, none, some,
}
use eframework.Coroutine.Members.{count, IsValid}
use eframework.Coroutine.Empty.{is_past, shrink_to_empty}
use eframework.Framework.Wrapped.{Call, close}
use eframework.Framework.Queue.{Listener, for_proc}
use eframework.Framework.Queue.Starting.{is_nil}
use eframework.Framework.Queue.Serving.{waiting}
use eframework.Framework.Loop.{Runtime, closed, keep_waiting, stop_listeners, Clock, trim, stop}

-- The sockets that are open, and the descriptors that calls close.
abbrev pub open_fds : List Listener → List ℕ
open_fds [] = []
open_fds (l ∷ listeners) = elim l.fd [
  | none ↦ open_fds listeners
  | some fd ↦ fd ∷ open_fds listeners
]

unfoldable pub closings : List Call → List ℕ
closings [] = []
closings (close fd ∷ calls) = fd ∷ closings calls
closings (_ ∷ calls) = closings calls

-- A socket that is kept although it is closed.
abbrev pub IsLeft : Listener → Type 0
IsLeft l = (l.fd ≡ none) × (is_nil l.queue ≡ false)

waiting-keep_waiting :
    (queue : List ℕ) (proc : ℕ) (kept : List Listener)
    → waiting (keep_waiting queue proc kept) ≡ for_proc proc queue ++ waiting kept
unfolding keep_waiting
waiting-keep_waiting [] proc kept = refl
waiting-keep_waiting (fd ∷ queue) proc kept = refl

waiting-stop_listeners :
    (listeners : List Listener) → waiting (stop_listeners listeners).0 ≡ waiting listeners
unfolding stop_listeners
waiting-stop_listeners [] = refl
waiting-stop_listeners (l ∷ listeners) =
    rw (waiting-keep_waiting, waiting-stop_listeners listeners) refl

keep_waiting-IsLeft :
    (queue : List ℕ) (proc : ℕ) (kept : List Listener)
    → All IsLeft kept
    → All IsLeft (keep_waiting queue proc kept)
unfolding keep_waiting
keep_waiting-IsLeft [] proc kept h = h
keep_waiting-IsLeft (fd ∷ queue) proc kept h = ((refl, refl), h)

stop_listeners-IsLeft : (listeners : List Listener) → All IsLeft (stop_listeners listeners).0
unfolding stop_listeners
stop_listeners-IsLeft [] = tt
stop_listeners-IsLeft (l ∷ listeners) =
    keep_waiting-IsLeft l.queue l.proc _ (stop_listeners-IsLeft listeners)

closings-closed :
    (fd : Option ℕ) (listeners : List Listener) (calls : List Call)
    → closings calls ≡ open_fds listeners
    → closings (closed fd ++ calls)
      ≡ (elim fd [ none ↦ open_fds listeners | some f ↦ f ∷ open_fds listeners ])
unfolding closings
closings-closed none listeners calls e = e
closings-closed (some fd) listeners calls e = ap (λ t. fd ∷ t) e

closings-stop_listeners :
    (listeners : List Listener) → closings (stop_listeners listeners).1 ≡ open_fds listeners
unfolding stop_listeners
closings-stop_listeners [] = unfold closings in refl
closings-stop_listeners (l ∷ listeners) =
    closings-closed l.fd listeners _ (closings-stop_listeners listeners)

trim_listeners : (now : Clock) (rt : Runtime) → (trim now rt).listeners ≡ rt.listeners
unfolding trim
trim_listeners now rt = ground arith

-- The end of a turn of a loop that stops: each listening socket that was open is closed, once and
-- in order; only those sockets stay for which a connection waits, and none of these connections is
-- lost. The loop ends exactly if all coroutines of the pool are free.
pub stop_lem :
    (now later : Clock) (rt : Runtime)
    → let t = stop now later rt in
      (waiting t.runtime.listeners ≡ waiting rt.listeners)
      × All IsLeft t.runtime.listeners
      × (closings t.calls ≡ open_fds rt.listeners)
      × (t.ended ≡ (rt.pool.free_count == rt.pool.full_count))
unfolding stop
stop_lem now later rt = elim (Bool-cases (rt.pool.free_count == rt.pool.full_count)) [
  | inl e ↦ rw e (
    waiting-stop_listeners rt.listeners,
    stop_listeners-IsLeft rt.listeners,
    closings-stop_listeners rt.listeners,
    refl,
  )
  | inr e ↦
      rw (e, trim_listeners)
        (
          waiting-stop_listeners rt.listeners,
          stop_listeners-IsLeft rt.listeners,
          closings-stop_listeners rt.listeners,
          refl,
        )
]

-- A loop that stops with a valid pool whose coroutines are all free, and were last run at a time
-- before the present one, ends and frees every coroutine of the pool, whatever the pool's lower
-- limit.
pub stop_frees :
    (now later : Clock) (rt : Runtime)
    → IsValid rt.pool
    → rt.pool.free_count ≡ rt.pool.full_count
    → ((x : ℕ)
        → 1 ≤ count x rt.pool.free_list
        → is_past now.sec now.usec (rt.pool.coroutines x) ≡ true)
    → let t = stop now later rt in (t.ended ≡ true) × (t.runtime.pool.full_count ≡ 0)
unfolding stop
stop_frees now later rt v f h =
    let e : (rt.pool.free_count == rt.pool.full_count) ≡ true = ground (arith, f) in
    rw e (refl, shrink_to_empty now.sec now.usec rt.pool v f h)
