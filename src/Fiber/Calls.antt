-- ===== src/Fiber/Calls.antt =====
-- The scheduler of src/fiber.c against a stack of calls: `ef_fiber_resume` calls, `ef_fiber_yield`
-- and the end of a procedure return.
use eframework.Base.{
  ℕ, ◌≡◌, refl, inl, inr, Bool, true, false, ◌||◌, Option, none, some, List, [], ◌∷◌, arith, ◌==◌,
  if◌then◌else◌, Bool-cases, Option-cases, some_inj,
}
use eframework.Table.{update}
use eframework.Fiber.{Sched, Fiber, switched, resume, yield, exit, status_inited, status_exited}

-- What the fiber that runs does next.
pub data Act : Type 0 where
  resumes : ℕ → Act
  yields exits : Act

-- The scheduler follows it; a refused resumption leaves the scheduler as it is.
unfoldable pub act : Sched → Act → Sched
act rt (resumes to) = elim (resume rt to) [ switched rt' ↦ rt' | _ ↦ rt ]
act rt yields = yield rt
act rt exits = exit rt

unfoldable pub run : Sched → List Act → Sched
run rt [] = rt
run rt (a ∷ acts) = run (act rt a) acts

-- The specification: a stack of fibers, the one that runs first, and what `status` each has.
pub record Calls : Type 0 where
  pub running : ℕ
  pub callers : List ℕ
  pub status : ℕ → ℕ

unfoldable pub has : ℕ → List ℕ → Bool
has x [] = false
has x (y ∷ l) = (x == y) || has x l

-- `none` is for a fiber that resumes itself or a caller of its, and for the thread that yields.
unfoldable pub call : Calls → Act → Option Calls
call c (resumes to) =
    if c.status to == status_inited
    then if has to (c.running ∷ c.callers)
      then none
      else some (record c { running = to; callers = c.running ∷ c.callers })
    else some c
call c yields = elim c.callers [ [] ↦ none | p ∷ l ↦ some (record c { running = p; callers = l }) ]
call c exits = elim c.callers [
  | [] ↦ none
  | p ∷ l ↦
      some (record { running = p; callers = l; status = update c.status c.running status_exited })
]

unfoldable pub calls : Calls → List Act → Option Calls
calls c [] = some c
calls c (a ∷ acts) = elim (call c a) [ none ↦ none | some c' ↦ calls c' acts ]

-- Each fiber's parent is its caller.
abbrev pub IsChain : (ℕ → Fiber) → ℕ → List ℕ → Type 0
IsChain fibers x [] = Unit
IsChain fibers x (p ∷ l) = ((fibers x).parent ≡ p) × IsChain fibers p l

pub record Follows (rt : Sched) (c : Calls) : Type 0 where
  pub current : rt.current_fiber ≡ c.running
  pub chain : IsChain rt.fibers c.running c.callers
  pub status : (x : ℕ) → (rt.fibers x).status ≡ c.status x

-- A fiber that is not in a chain can be changed.
IsChain-update :
    (fibers : ℕ → Fiber) (x to : ℕ) (l : List ℕ) (f : Fiber)
    → IsChain fibers x l
    → has to (x ∷ l) ≡ false
    → IsChain (update fibers to f) x l
unfolding has
IsChain-update fibers x to [] f c h = tt
IsChain-update fibers x to (p ∷ l) f (c, cs) h =
    (ground arith, IsChain-update fibers p to l f cs (ground arith))

-- So can its status be.
IsChain-status :
    (fibers : ℕ → Fiber) (x to : ℕ) (l : List ℕ) (s : ℕ)
    → IsChain fibers x l
    → IsChain (update fibers to (record (fibers to) { status = s })) x l
IsChain-status fibers x to [] s c = tt
IsChain-status fibers x to (p ∷ l) s (c, cs) = (ground arith, IsChain-status fibers p to l s cs)

resume-Follows :
    (rt : Sched) (c : Calls) (to : ℕ)
    → Follows rt c
    → c.status to ≡ status_inited
    → has to (c.running ∷ c.callers) ≡ false
    → Follows (act rt (resumes to)) (record c { running = to; callers = c.running ∷ c.callers })
unfolding act resume
resume-Follows rt c to f ready fresh =
    let inited : ((rt.fibers to).status == status_inited) ≡ true = ground (arith, f.status to) in
    rw (inited, resume, act)
      record {
        current = refl;
        chain = (
          ground (arith, f.current),
          IsChain-update rt.fibers c.running to c.callers _ f.chain fresh,
        );
        status = λ x. ground (arith, f.status x, f.status to);
      }

refuse-Follows :
    (rt : Sched) (c : Calls) (to : ℕ)
    → Follows rt c
    → (c.status to == status_inited) ≡ false
    → act rt (resumes to) ≡ rt
unfolding act resume
refuse-Follows rt c to f refused = ground (arith, f.status to)

yield-Follows :
    (rt : Sched) (x : ℕ) (l : List ℕ) (st : ℕ → ℕ) (c' : Calls)
    → Follows rt (record { running = x; callers = l; status = st })
    → call (record { running = x; callers = l; status = st }) yields ≡ some c'
    → Follows (yield rt) c'
unfolding yield call
yield-Follows rt x [] st c' f e = absurd (ground arith)
yield-Follows rt x (p ∷ l) st c' f e =
    rw (← some_inj e)
      record { current = rw f.current f.chain.0; chain = f.chain.1; status = f.status }

exit-Follows :
    (rt : Sched) (x : ℕ) (l : List ℕ) (st : ℕ → ℕ) (c' : Calls)
    → Follows rt (record { running = x; callers = l; status = st })
    → call (record { running = x; callers = l; status = st }) exits ≡ some c'
    → Follows (exit rt) c'
unfolding exit call
exit-Follows rt x [] st c' f e = absurd (ground arith)
exit-Follows rt x (p ∷ l) st c' f e = rw (← some_inj e) record {
  current = rw f.current f.chain.0;
  chain = IsChain-status rt.fibers p rt.current_fiber l status_exited f.chain.1;
  status = λ y. ground (arith, f.status y, f.current);
}

act-Follows :
    (rt : Sched) (c c' : Calls) (a : Act)
    → Follows rt c
    → call c a ≡ some c'
    → Follows (act rt a) c'
unfolding call act yield
act-Follows rt c c' (resumes to) f e = elim (Bool-cases (c.status to == status_inited)) [
  | inr refused ↦
      let still : c ≡ c' = ground arith in rw (refuse-Follows rt c to f refused, ← still) f
  | inl ready ↦ elim (Bool-cases (has to (c.running ∷ c.callers))) [
    | inl calling ↦ absurd (ground arith)
    | inr fresh ↦
        let now : record c { running = to; callers = c.running ∷ c.callers } ≡ c' = ground arith in
        rw (← now) (resume-Follows rt c to f (ground arith) fresh)
  ]
]
act-Follows rt c c' yields f e = yield-Follows rt c.running c.callers c.status c' f e
act-Follows rt c c' exits f e = exit-Follows rt c.running c.callers c.status c' f e

calls_step :
    (c next c' : Calls) (a : Act) (acts : List Act)
    → call c a ≡ some next
    → calls c (a ∷ acts) ≡ some c'
    → calls next acts ≡ some c'
unfolding calls
calls_step c next c' a acts goes e = ground (arith, goes)

-- If the scheduler follows a stack of calls and each of the acts is allowed on that stack (no
-- fiber resumes itself or a caller of its, and the thread does not yield), then after the acts the
-- scheduler runs the fiber on top of the stack, each fiber's parent is its caller, and each status
-- is that of the stack machine; a resumption of a fiber that is not ready changes nothing.
pub run-Follows :
    (rt : Sched) (c c' : Calls) (acts : List Act)
    → Follows rt c
    → calls c acts ≡ some c'
    → Follows (run rt acts) c'
unfolding run calls
run-Follows rt c c' [] f e = rw (← some_inj e) f
run-Follows rt c c' (a ∷ acts) f e = elim (Option-cases (call c a)) [
  | inl wrong ↦ absurd (ground arith)
  | inr (next, goes) ↦
      let rest : calls next acts ≡ some c' = calls_step c next c' a acts goes e in
      run-Follows (act rt a) next c' acts (act-Follows rt c next a f goes) rest
]
