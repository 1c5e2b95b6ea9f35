-- ===== src/Framework/Queue/Serving.antt =====
-- Serving all queues of src/framework.c: what is started, and what still waits.
use eframework.Base.{
  ℕ, suc, ◌+◌, ◌≤◌, Bool, false, not, List, [], ◌∷◌, ◌++◌, length, length-append, ◌≡◌, refl, ap,
  inl, inr, arith, Bool-cases, append_assoc, append-nil, Option,
}
use eframework.Structure.Memory.{Outcome, done, fault, unfinished}
use eframework.Coroutine.{Pool}
use eframework.Coroutine.Members.{IsValid}
use eframework.Framework.Queue.{
  Start, Ran, Listener, Served, for_proc, with_listener, run_queues, next_queue,
}
use eframework.Framework.Queue.Starting.{IsApart, Drains, Drained, is_nil, run_queue-Drained}

-- The connections that wait, in the order in which they are started, each with its procedure.
abbrev pub waiting : List Listener → List (ℕ × ℕ)
waiting [] = []
waiting (l ∷ listeners) = for_proc l.proc l.queue ++ waiting listeners

-- What stays as it is in the listening sockets.
abbrev pub heads : List Listener → List (Option ℕ × ℕ)
heads [] = []
heads (l ∷ listeners) = (l.fd, l.proc) ∷ heads listeners

-- A run over all queues.
abbrev pub Serves : List Listener → (free_items : ℕ) → Outcome Served → Type 0
Serves listeners free_items (done s) =
    (s.started ++ waiting s.listeners ≡ waiting listeners)
    × (heads s.listeners ≡ heads listeners)
    × (s.free_items ≡ free_items + length s.started)
    × IsValid s.pool
Serves listeners free_items fault = ⊥
Serves listeners free_items unfinished = ⊥

for_proc-append :
    (proc : ℕ) (l m : List ℕ) → for_proc proc (l ++ m) ≡ for_proc proc l ++ for_proc proc m
for_proc-append proc [] m = refl
for_proc-append proc (x ∷ l) m = ap (λ t. (proc, x) ∷ t) (for_proc-append proc l m)

length-for_proc : (proc : ℕ) (l : List ℕ) → length (for_proc proc l) ≡ length l
length-for_proc proc [] = refl
length-for_proc proc (x ∷ l) = ap suc (length-for_proc proc l)

not_failed :
    (queue : List ℕ) (failed : Bool) → is_nil queue ≡ not failed → failed ≡ false → queue ≡ []
not_failed [] failed h f = refl
not_failed (x ∷ queue) failed h f = absurd (ground (arith, h, f))

with_listener-Serves :
    (l : Listener) (listeners : List Listener) (free_items : ℕ) (r : Ran) (o : Outcome Served)
    → Drains l.queue free_items r
    → r.failed ≡ false
    → Serves listeners r.free_items o
    → Serves
        (l ∷ listeners)
        free_items
        (with_listener (record l { queue = r.queue }) (for_proc l.proc r.started) o)
with_listener-Serves l listeners free_items r (done s) d f (order, same, items, valid) =
    let empty = not_failed r.queue r.failed d.all f in
    let all : r.started ≡ l.queue = rw (empty, append-nil) at d.in_order in
    (
      rw (empty, all, append_assoc, order) refl,
      ap (λ t. (l.fd, l.proc) ∷ t) same,
      rw length-append (omega (arith, items, d.items, length-for_proc l.proc r.started)),
      valid,
    )
with_listener-Serves l listeners free_items r fault d f h = absurd h
with_listener-Serves l listeners free_items r unfinished d f h = absurd h

next_queue-Serves :
    (starts : List Start) (l : Listener) (listeners : List Listener) (free_items : ℕ)
    (o : Outcome Ran) (more : Ran → Outcome Served)
    → Drained starts l.queue free_items o
    → ((r : Ran)
        → IsApart r.starts r.pool
        → IsValid r.pool
        → length starts ≤ length r.starts + length l.queue
        → Serves listeners r.free_items (more r))
    → Serves (l ∷ listeners) free_items (next_queue l listeners o more)
unfolding next_queue
next_queue-Serves starts l listeners free_items fault more d ih = absurd d
next_queue-Serves starts l listeners free_items unfinished more d ih = absurd d
next_queue-Serves starts l listeners free_items (done r) more (d, n) ih =
    elim (Bool-cases r.failed) [
      | inl f ↦ rw f (
        rw (← append_assoc, ← for_proc-append, d.in_order) refl,
        refl,
        omega (arith, d.items, length-for_proc l.proc r.started),
        d.valid,
      )
      | inr f ↦
          simp f
            (with_listener-Serves l listeners free_items r (more r) d f (ih r d.apart d.valid n))
    ]

-- The loop of `ef_run_loop` over the queues, on a valid pool, where new fibers are not in the pool
-- and there are as many answers for new coroutines as connections wait: it ends without a wrong
-- access; the connections that are started, each with its socket's procedure, followed by those
-- that still wait, are those that waited, in their order. One item becomes free for each that is
-- started, the sockets stay as they are, and the pool stays valid.
pub run_queues-Serves :
    (starts : List Start) (listeners : List Listener) (pool : Pool) (free_items : ℕ)
    → length (waiting listeners) ≤ length starts
    → IsApart starts pool
    → IsValid pool
    → Serves listeners free_items (run_queues starts listeners pool free_items)
unfolding run_queues
run_queues-Serves starts [] pool free_items n a v = (refl, refl, omega arith, v)
run_queues-Serves starts (l ∷ listeners) pool free_items n a v =
    let both : length (for_proc l.proc l.queue) + length (waiting listeners) ≤ length starts =
      rw length-append at n in
    let size = length-for_proc l.proc l.queue in
    next_queue-Serves starts l listeners free_items _ _
      (run_queue-Drained starts l.queue pool free_items (omega (arith, both, size)) a v)
      (λ r apart valid left.
        run_queues-Serves r.starts listeners r.pool r.free_items (omega (arith, both, size, left))
          apart valid)
