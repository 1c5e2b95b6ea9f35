-- ===== src/Framework/Loop/Run.antt =====
-- The set-up of src/framework.c, and the loop over the turns.
use eframework.Base.{
  ℕ, Bool, false, not, ◌&&◌, List, [], ◌∷◌, ◌++◌, ◌==◌, if◌then◌else◌, Option, none, some,
}
use eframework.Base.Int.{ℤ, pos, negsuc, less}
use eframework.Structure.Memory.{Outcome, done, fault, unfinished}
use eframework.Structure.BufferIo.{Answer, eintr}
use eframework.Coroutine.{Coroutine, init}
use eframework.Framework.Wrapped.{Call, associate, poll_in}
use eframework.Framework.Queue.{Listener, set_result}
use eframework.Framework.Loop.{Runtime, Turned, Round, turn}

-- `ef_init`: its result, and the runtime if a back end is created.
unfoldable pub start_runtime :
    (poll_created : Bool)
    → (memory : ℕ → Coroutine) → (stack_size : ℕ) → (limit_min limit_max : ℤ)
    → (shrink_millisecs count_per_shrink : ℤ) → ℤ × Option Runtime
start_runtime poll_created memory stack_size limit_min limit_max shrink_millisecs count_per_shrink =
    if poll_created
    then (
      pos 1,
      some (record {
        stopping = false;
        shrink_millisecs = shrink_millisecs;
        count_per_shrink = count_per_shrink;
        pool = init memory stack_size limit_min limit_max;
        listeners = [];
        free_items = 0;
      }),
    )
    else (negsuc 0, none)

-- `ef_add_listen`.
unfoldable pub add_listen :
    (set_flags : Answer) → (granted : Bool) → (socket proc : ℕ) → Runtime → ℤ × Runtime
add_listen set_flags granted socket proc rt =
    if less (set_result set_flags) (pos 0)
    then (set_result set_flags, rt)
    else if granted
    then (
      pos 0,
      record rt { listeners = record { fd = some socket; proc = proc; queue = [] } ∷ rt.listeners },
    )
    else (negsuc 0, rt)

-- The loop: what `ef_run_loop` returns, the runtime, and what was done.
pub record Looped : Type 0 where
  pub retval : ℤ
  pub runtime : Runtime
  pub calls : List Call

abbrev pub looped : List Call → Outcome Looped → Outcome Looped
looped calls (done o) = done (record o { calls = calls ++ o.calls })
looped calls fault = fault
looped calls unfinished = unfinished

abbrev pub next_turn : Outcome Turned → (Runtime → Outcome Looped) → Outcome Looped
next_turn fault more = fault
next_turn unfinished more = unfinished
next_turn (done t) more =
    if t.ended
    then done (record { retval = pos 0; runtime = t.runtime; calls = t.calls })
    else looped t.calls (more t.runtime)

unfoldable pub loop : List Round → Runtime → Outcome Looped
unfolding turn
loop [] rt = unfinished
loop (r ∷ rounds) rt =
    if less r.count (pos 0) && not (r.errno == eintr)
    then done (record { retval = r.count; runtime = rt; calls = [] })
    else next_turn (turn r rt) (loop rounds)

-- The association of the listening sockets; `answers` are those of `associate`. The result that is
-- negative ends `ef_run_loop`.
unfoldable pub associate_all : List Listener → (answers : List ℤ) → Outcome (Option ℤ × List Call)
associate_all [] answers = done (none, [])
associate_all (l ∷ listeners) [] = unfinished
associate_all (l ∷ listeners) (a ∷ answers) = elim l.fd [
  | none ↦ fault
  | some fd ↦
      let call = associate fd poll_in a in
      let rest = associate_all listeners answers in
      if less a (pos 0) then done (some a, call ∷ []) else elim rest [
        | fault ↦ fault
        | unfinished ↦ unfinished
        | done out ↦ done (out.0, call ∷ out.1)
      ]
]

-- `ef_run_loop`.
unfoldable pub run_loop : (answers : List ℤ) → List Round → Runtime → Outcome Looped
unfolding loop associate_all
run_loop answers rounds rt = elim (associate_all rt.listeners answers) [
  | fault ↦ fault
  | unfinished ↦ unfinished
  | done (some a, calls) ↦ done (record { retval = a; runtime = rt; calls = calls })
  | done (none, calls) ↦ looped calls (loop rounds rt)
]
