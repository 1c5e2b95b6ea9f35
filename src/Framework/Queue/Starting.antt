-- ===== src/Framework/Queue/Starting.antt =====
-- Starting the queued connections of src/framework.c: the order of the queues and the pool.
use eframework.Base.{
  ℕ, ◌+◌, ◌≤◌, Bool, true, false, not, List, [], ◌∷◌, ◌++◌, length, ltb, ◌≡◌, refl, ap, inl, inr,
  arith, Bool-cases, Option, none, some,
}
use eframework.Base.Int.{ℤ, pos, negsuc, not_less}
use eframework.Table.{update}
use eframework.Structure.Memory.{Outcome, done, fault, unfinished}
use eframework.Coroutine.{Coroutine, Pool, create, restart, can_resume, resumed}
use eframework.Coroutine.Members.{
  count, IsValid, IsFresh, list_cases, create-Valid, resumed-IsValid,
}
use eframework.Framework.Queue.{
  Start, run_created, routine_run, Ran, with_started, after_start, run_queue,
}

-- The page of a fiber.
abbrev pub page_of : Option (ℕ × Coroutine) → List ℕ
page_of none = []
page_of (some (co, page)) = co ∷ []

-- A coroutine that is handed out can be resumed, and only the new fiber's page has joined the pool.
abbrev Handed : Option (ℕ × Coroutine) → Pool → Option (Option ℕ × Pool) → Type 0
Handed fiber pool none = Unit
Handed fiber pool (some (none, after)) =
    (x : ℕ) → count x after.full_list ≤ count x pool.full_list + count x (page_of fiber)
Handed fiber pool (some (some co, after)) =
    (count co after.full_list ≡ 1)
    × (can_resume after co ≡ true)
    × ((x : ℕ) → count x after.full_list ≤ count x pool.full_list + count x (page_of fiber))

hand_new :
    (pool : Pool) (fiber : Option (ℕ × Coroutine))
    → IsFresh fiber pool
    → Handed fiber pool (elim fiber [
      | none ↦ some (none, pool)
      | some (co, page) ↦ some (
        some co,
        record pool {
          full_count = pool.full_count + 1;
          full_list = co ∷ pool.full_list;
          coroutines = update pool.coroutines co (record (restart page) { run_count = 0 });
        },
      )
    ])
unfolding count can_resume restart
hand_new pool none f = λ x. omega arith
hand_new pool (some (co, page)) f = (ground (arith, f), ground arith, λ x. ground arith)

create-Handed :
    (fiber : Option (ℕ × Coroutine)) (pool : Pool)
    → IsFresh fiber pool
    → IsValid pool
    → Handed fiber pool (create fiber pool)
unfolding create count can_resume restart
create-Handed fiber pool f v = elim (Bool-cases (ltb 0 pool.free_count)) [
  | inl free ↦ elim (list_cases pool.free_list) [
    | inl empty ↦ rw (free, empty) tt
    | inr (co, rest, e) ↦
        rw (free, e) (ground (arith, v.freed co, v.once co, e), ground arith, λ x. omega arith)
  ]
  | inr used ↦ elim (Bool-cases (not_less (pos pool.full_count) pool.limit_max)) [
    | inl full ↦ rw (used, full) (λ x. omega arith)
    | inr room ↦ rw (used, room) (hand_new pool fiber f)
  ]
]

-- The pages of the fibers that a script can make.
abbrev pub pages : List Start → List ℕ
pages [] = []
pages (s ∷ starts) = page_of s.fiber ++ pages starts

-- No page is in the pool, and none is made twice.
abbrev pub IsApart : List Start → Pool → Type 0
IsApart starts pool = (x : ℕ) → count x (pages starts) + count x pool.full_list ≤ 1

count-append : (x : ℕ) (l m : List ℕ) → count x (l ++ m) ≡ count x l + count x m
unfolding count
count-append x [] m = omega arith
count-append x (y ∷ l) m = omega (arith, count-append x l m)

-- One start of a script.
record Launched (s : Start) (starts : List Start) (pool : Pool) : Type 0 where
  result : ℤ
  after : Pool
  runs : routine_run s pool ≡ some (result, after)
  pub valid : IsValid after
  pub apart : IsApart starts after

IsApart-IsFresh :
    (s : Start) (starts : List Start) (pool : Pool)
    → IsApart (s ∷ starts) pool
    → IsFresh s.fiber pool
unfolding IsApart
IsApart-IsFresh s starts pool a =
    fresh s.fiber (λ x. omega (arith, a x, count-append x (page_of s.fiber) (pages starts)))
  where
    fresh :
        (fiber : Option (ℕ × Coroutine))
        → ((x : ℕ) → count x (page_of fiber) + count x pool.full_list ≤ 1)
        → IsFresh fiber pool
    fresh none h = tt
    fresh (some (co, page)) h = unfold count in ground (arith, h co)

pub resumed_full :
    (pool : Pool) (co status now_sec now_usec : ℕ)
    → (resumed pool co status now_sec now_usec).full_list ≡ pool.full_list
unfolding resumed
resumed_full pool co status now_sec now_usec = ground arith

run_created-Launched :
    (s : Start) (starts : List Start) (pool : Pool) (answer : Option ℕ) (handed : Pool)
    → IsApart (s ∷ starts) pool
    → create s.fiber pool ≡ some (answer, handed)
    → IsValid handed
    → Handed s.fiber pool (some (answer, handed))
    → Launched s starts pool
unfolding routine_run run_created IsApart
run_created-Launched s starts pool none handed a e v h = record {
  result = negsuc 0;
  after = handed;
  runs = rw (e, routine_run) refl;
  valid = v;
  apart = λ x. omega (arith, a x, count-append x (page_of s.fiber) (pages starts), h x);
}
run_created-Launched s starts pool (some co) handed a e v h = record {
  result = pos 0;
  after = resumed handed co s.status s.now_sec s.now_usec;
  runs = rw (e, routine_run, h.1) refl;
  valid = resumed-IsValid handed co s.status s.now_sec s.now_usec h.0 h.1 v;
  apart = λ x.
      rw (resumed_full)
        (omega (arith, a x, count-append x (page_of s.fiber) (pages starts), h.2 x));
}

routine_run-Launched :
    (s : Start) (starts : List Start) (pool : Pool)
    → IsApart (s ∷ starts) pool
    → IsValid pool
    → Launched s starts pool
routine_run-Launched s starts pool a v =
    let f = IsApart-IsFresh s starts pool a in
    let c = create-Valid s.fiber pool f v in
    let h : Handed s.fiber pool (some (c.answer, c.result)) =
      rw c.runs at (create-Handed s.fiber pool f v) in
    run_created-Launched s starts pool c.answer c.result a c.runs c.valid h

abbrev pub is_nil : {A : Type 0} → List A → Bool
is_nil [] = true
is_nil (x ∷ l) = false

-- A run over a queue has started a front part of it, and all of it unless a start has failed.
pub record Drains (queue : List ℕ) (free_items : ℕ) (r : Ran) : Type 0 where
  pub in_order : r.started ++ r.queue ≡ queue
  pub all : is_nil r.queue ≡ not r.failed
  pub items : r.free_items ≡ free_items + length r.started
  pub valid : IsValid r.pool
  pub apart : IsApart r.starts r.pool

abbrev pub Drained : (starts : List Start) (queue : List ℕ) (free_items : ℕ) → Outcome Ran → Type 0
Drained starts queue free_items (done r) =
    Drains queue free_items r × (length starts ≤ length r.starts + length queue)
Drained starts queue free_items fault = ⊥
Drained starts queue free_items unfinished = ⊥

with_started-Drained :
    (s : Start) (starts : List Start) (fd : ℕ) (queue : List ℕ) (free_items : ℕ) (o : Outcome Ran)
    → Drained starts queue (free_items + 1) o
    → Drained (s ∷ starts) (fd ∷ queue) free_items (with_started fd o)
with_started-Drained s starts fd queue free_items (done r) (d, n) = (
  record {
    in_order = ap (λ t. fd ∷ t) d.in_order;
    all = d.all;
    items = omega (arith, d.items);
    valid = d.valid;
    apart = d.apart;
  },
  omega (arith, n),
)
with_started-Drained s starts fd queue free_items fault h = absurd h
with_started-Drained s starts fd queue free_items unfinished h = absurd h

after_start-Drained :
    (s : Start) (starts : List Start) (fd : ℕ) (queue : List ℕ) (free_items : ℕ) (result : ℤ)
    (after : Pool) (more : Outcome Ran)
    → IsApart starts after
    → IsValid after
    → Drained starts queue (free_items + 1) more
    → Drained
        (s ∷ starts)
        (fd ∷ queue)
        free_items
        (after_start fd queue free_items starts result after more)
unfolding after_start
after_start-Drained s starts fd queue free_items (negsuc n) after more a v d =
    (record { in_order = refl; all = refl; items = omega arith; valid = v; apart = a }, omega arith)
after_start-Drained s starts fd queue free_items (pos n) after more a v d =
    with_started-Drained s starts fd queue free_items more d

pub run_queue-Drained :
    (starts : List Start) (queue : List ℕ) (pool : Pool) (free_items : ℕ)
    → length queue ≤ length starts
    → IsApart starts pool
    → IsValid pool
    → Drained starts queue free_items (run_queue starts queue pool free_items)
unfolding run_queue
run_queue-Drained starts [] pool free_items n a v =
    (record { in_order = refl; all = refl; items = omega arith; valid = v; apart = a }, omega arith)
run_queue-Drained [] (fd ∷ queue) pool free_items n a v = absurd (omega arith)
run_queue-Drained (s ∷ starts) (fd ∷ queue) pool free_items n a v =
    let r = routine_run-Launched s starts pool a v in
    let rest =
      run_queue-Drained starts queue r.after (free_items + 1) (omega arith) r.apart r.valid in
    rw (r.runs, run_queue)
      (after_start-Drained s starts fd queue free_items r.result r.after _ r.apart r.valid rest)
