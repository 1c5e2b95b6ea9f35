-- ===== src/Framework/Queue.antt =====
-- The connections of src/framework.c: a listening socket's are accepted into its queue, and a coroutine
-- is started for each. The items of a queue are the descriptors that they hold; the items on the list of
-- free ones are counted. What a coroutine does is not looked into: it comes back with a status, and does
-- not touch the queues.
pub mod Accepting
pub mod Starting
pub mod Serving
use eframework.Base.{
  ℕ, ◌+◌, ◌-◌, Bool, true, false, not, List, [], ◌∷◌, ◌++◌, ltb, if◌then◌else◌, Option, none, some,
}
use eframework.Base.Int.{ℤ, pos, negsuc, less}
use eframework.Structure.Memory.{Outcome, done, fault, unfinished}
use eframework.Structure.BufferIo.{Answer, answer}
use eframework.Coroutine.{Coroutine, Pool, create, can_resume, resumed}
use eframework.Framework.Wrapped.{Call, reassociate, unset, set_nonblock, close, poll_in}

-- One answer of `accept`: a socket, with what the system says when it is queued (whether it is in
-- non-block mode, what `fcntl(F_SETFL)` answers, and whether memory for an item is granted), or a
-- negative number.
pub data Accepted : Type 0 where
  connection : (fd : ℕ) (nonblock : Bool) (set_flags : Answer) (granted : Bool) → Accepted
  no_more : (n : ℕ) → Accepted

-- A result, the queue and the number of free items, and what was done.
pub record Queued : Type 0 where
  pub retval : ℤ
  pub queue : List ℕ
  pub free_items : ℕ
  pub calls : List Call

-- `ef_queue_fd` from the choice of an item on.
unfoldable pub enqueue : (granted : Bool) → (fd : ℕ) → (queue : List ℕ) → (free_items : ℕ) → Queued
enqueue granted fd queue free_items =
    let longer = queue ++ (fd ∷ []) in
    if ltb 0 free_items
    then record { retval = pos 0; queue = longer; free_items = free_items - 1; calls = [] }
    else if granted
    then record { retval = pos 0; queue = longer; free_items = free_items; calls = [] }
    else record { retval = negsuc 0; queue = queue; free_items = free_items; calls = close fd ∷ [] }

abbrev pub preceded : List Call → Queued → Queued
preceded calls q = record q { calls = calls ++ q.calls }

abbrev pub set_result : Answer → ℤ
set_result (answer retval errno) = retval

-- `ef_queue_fd`.
unfoldable pub queue_fd :
    (nonblock : Bool)
    → (set_flags : Answer) → (granted : Bool) → (fd : ℕ) → (queue : List ℕ) → (free_items : ℕ)
    → Queued
unfolding enqueue
queue_fd nonblock set_flags granted fd queue free_items =
    if nonblock
    then enqueue granted fd queue free_items
    else if less (set_result set_flags) (pos 0)
    then record {
      retval = set_result set_flags;
      queue = queue;
      free_items = free_items;
      calls = set_nonblock fd ∷ [];
    }
    else preceded (set_nonblock fd ∷ []) (enqueue granted fd queue free_items)

abbrev pub preceded_run : List Call → Outcome Queued → Outcome Queued
preceded_run calls (done q) = done (preceded calls q)
preceded_run calls fault = fault
preceded_run calls unfinished = unfinished

-- After one connection; `more` is what the loop does from there.
unfoldable pub go_on : Queued → (more : Outcome Queued) → Outcome Queued
go_on q more = if less q.retval (pos 0) then done q else preceded_run q.calls more

-- The loop over `accept` in `ef_run_loop`.
unfoldable pub accept_loop :
    List Accepted → (listen_fd : ℕ) → (queue : List ℕ) → (free_items : ℕ) → Outcome Queued
unfolding go_on
accept_loop [] listen_fd queue free_items = unfinished
accept_loop (no_more n ∷ script) listen_fd queue free_items = done (record {
  retval = negsuc n;
  queue = queue;
  free_items = free_items;
  calls = unset listen_fd poll_in ∷ [];
})
accept_loop (connection fd nonblock set_flags granted ∷ script) listen_fd queue free_items =
    let q = queue_fd nonblock set_flags granted fd queue free_items in
    go_on q (accept_loop script listen_fd q.queue q.free_items)

abbrev pub followed_run : Outcome Queued → List Call → Outcome Queued
followed_run (done q) calls = done (record q { calls = q.calls ++ calls })
followed_run fault calls = fault
followed_run unfinished calls = unfinished

-- The event of a listening socket.
unfoldable pub listen_event :
    List Accepted → (listen_fd : ℕ) → (queue : List ℕ) → (free_items : ℕ) → Outcome Queued
unfolding accept_loop
listen_event script listen_fd queue free_items =
    followed_run (accept_loop script listen_fd queue free_items)
      (reassociate listen_fd poll_in ∷ [])

-- What happens when a coroutine is started: the fiber that can be made, and with what status and when
-- the coroutine comes back.
pub record Start : Type 0 where
  pub fiber : Option (ℕ × Coroutine)
  pub status : ℕ
  pub now_sec : ℕ
  pub now_usec : ℕ

-- `ef_routine_run`; the new coroutine is resumed. The outer `none` is that of `create`.
unfoldable pub run_created : Start → Option ℕ × Pool → ℤ × Pool
run_created s (none, pool) = (negsuc 0, pool)
run_created s (some co, pool) =
    (pos 0, if can_resume pool co then resumed pool co s.status s.now_sec s.now_usec else pool)

unfoldable pub routine_run : Start → Pool → Option (ℤ × Pool)
unfolding run_created
routine_run s pool = elim (create s.fiber pool) [
  | none ↦ none
  | some out ↦ some (run_created s out)
]

-- The loop over a queue: whether it was given up, what is left of the queue, and which connections have
-- been started.
pub record Ran : Type 0 where
  pub failed : Bool
  pub queue : List ℕ
  pub pool : Pool
  pub free_items : ℕ
  pub started : List ℕ
  pub starts : List Start

abbrev pub with_started : ℕ → Outcome Ran → Outcome Ran
with_started fd (done r) = done (record r { started = fd ∷ r.started })
with_started fd fault = fault
with_started fd unfinished = unfinished

-- After `ef_routine_run`; `more` is what the loop does from there.
unfoldable pub after_start :
    (fd : ℕ)
    → (queue : List ℕ) → (free_items : ℕ) → List Start
    → (result : ℤ) → Pool
    → (more : Outcome Ran) → Outcome Ran
after_start fd queue free_items starts (negsuc n) after more = done (record {
  failed = true;
  queue = fd ∷ queue;
  pool = after;
  free_items = free_items;
  started = [];
  starts = starts;
})
after_start fd queue free_items starts (pos n) after more = with_started fd more

unfoldable pub run_queue : List Start → (queue : List ℕ) → Pool → (free_items : ℕ) → Outcome Ran
unfolding after_start
run_queue starts [] pool free_items = done (record {
  failed = false;
  queue = [];
  pool = pool;
  free_items = free_items;
  started = [];
  starts = starts;
})
run_queue [] (fd ∷ queue) pool free_items = unfinished
run_queue (s ∷ starts) (fd ∷ queue) pool free_items = elim (routine_run s pool) [
  | none ↦ fault
  | some (result, after) ↦
      after_start fd queue free_items starts result after
        (run_queue starts queue after (free_items + 1))
]

-- `ef_listen_info_t`; the descriptor is `none` once it is closed.
pub record Listener : Type 0 where
  pub fd : Option ℕ
  pub proc : ℕ
  pub queue : List ℕ

-- The loop over the listening sockets; each connection is started with its socket's procedure.
pub record Served : Type 0 where
  pub listeners : List Listener
  pub pool : Pool
  pub free_items : ℕ
  pub started : List (ℕ × ℕ)

abbrev pub for_proc : (proc : ℕ) → List ℕ → List (ℕ × ℕ)
for_proc proc [] = []
for_proc proc (fd ∷ fds) = (proc, fd) ∷ for_proc proc fds

abbrev pub with_listener : Listener → List (ℕ × ℕ) → Outcome Served → Outcome Served
with_listener l started (done s) =
    done (record s { listeners = l ∷ s.listeners; started = started ++ s.started })
with_listener l started fault = fault
with_listener l started unfinished = unfinished

-- After the loop over one queue; `more` is what the loop over the sockets does from there.
unfoldable pub next_queue :
    Listener → List Listener → Outcome Ran → (more : Ran → Outcome Served) → Outcome Served
next_queue l listeners fault more = fault
next_queue l listeners unfinished more = unfinished
next_queue l listeners (done r) more =
    let left = record l { queue = r.queue } in
    if r.failed
    then done (record {
      listeners = left ∷ listeners;
      pool = r.pool;
      free_items = r.free_items;
      started = for_proc l.proc r.started;
    })
    else with_listener left (for_proc l.proc r.started) (more r)

unfoldable pub run_queues : List Start → List Listener → Pool → (free_items : ℕ) → Outcome Served
unfolding run_queue next_queue
run_queues starts [] pool free_items =
    done (record { listeners = []; pool = pool; free_items = free_items; started = [] })
run_queues starts (l ∷ listeners) pool free_items =
    next_queue l listeners (run_queue starts l.queue pool free_items)
      (λ r. run_queues r.starts listeners r.pool r.free_items)
