-- ===== src/Coroutine.antt =====
-- src/coroutine.c, src/coroutine.h: a pool of coroutines. The two chains of a pool are lists of
-- addresses, the entry behind the head first. The fiber that a coroutine starts with is what
-- src/fiber.c makes of it; only its status matters here.
pub mod Members
pub mod Shrink
pub mod Empty
mod Tests
use eframework.Base.{
  ℕ, zero, suc, ◌+◌, ◌-◌, ◌*◌, Bool, true, false, ◌&&◌, ◌||◌, Option, none, some, List, [], ◌∷◌,
  ltb, leb, ◌==◌, if◌then◌else◌,
}
use eframework.Base.Int.{ℤ, pos, difference, scale, remainder, abs, less, same, not_less, minus}
use eframework.Fiber.{status_exited, status_inited}
use eframework.Table.{update}

-- `ef_coroutine_t`.
pub record Coroutine : Type 0 where
  pub status : ℕ
  pub last_sec : ℕ
  pub last_usec : ℕ
  pub run_count : ℕ

-- `ef_coroutine_pool_t`.
pub record Pool : Type 0 where
  pub stack_size : ℕ
  pub limit_min : ℤ
  pub limit_max : ℤ
  pub full_list : List ℕ
  pub free_list : List ℕ
  pub full_count : ℕ
  pub free_count : ℕ
  pub run_count : ℕ
  pub coroutines : ℕ → Coroutine

-- `ef_coroutine_pool_init`; `memory` is what the addresses hold.
unfoldable pub init : (memory : ℕ → Coroutine) (stack_size : ℕ) (limit_min limit_max : ℤ) → Pool
init memory stack_size limit_min limit_max = record {
  stack_size = stack_size;
  limit_min = limit_min;
  limit_max = limit_max;
  full_list = [];
  free_list = [];
  full_count = 0;
  free_count = 0;
  run_count = 0;
  coroutines = memory;
}

-- `ef_fiber_init` of a coroutine that is taken from the free list.
unfoldable pub restart : Coroutine → Coroutine
restart co = record co { status = status_inited }

-- `ef_coroutine_create`: NULL is `none`, and so is, outside, a free list that is empty although the
-- count says otherwise. `fiber` is what `ef_fiber_create` gives, and what its page holds.
unfoldable pub create : Option (ℕ × Coroutine) → Pool → Option (Option ℕ × Pool)
create fiber pool =
    if ltb 0 pool.free_count
    then elim pool.free_list [
      | [] ↦ none
      | co ∷ rest ↦ some (
        some co,
        record pool {
          free_count = pool.free_count - 1;
          free_list = rest;
          coroutines = update pool.coroutines co (restart (pool.coroutines co));
        },
      )
    ]
    else if not_less (pos pool.full_count) pool.limit_max
    then some (none, pool)
    else elim fiber [
      | none ↦ some (none, pool)
      | some (co, page) ↦ some (
        some co,
        record pool {
          full_count = pool.full_count + 1;
          full_list = co ∷ pool.full_list;
          coroutines = update pool.coroutines co (record (restart page) { run_count = 0 });
        },
      )
    ]

-- The first half of `ef_coroutine_resume`: whether the fiber is switched to.
unfoldable pub can_resume : Pool → (co : ℕ) → Bool
can_resume pool co = (pool.coroutines co).status == status_inited

-- The second half, after the switch back: `status` is what the fiber left, and the time is `now`.
unfoldable pub resumed : Pool → (co status now_sec now_usec : ℕ) → Pool
resumed pool co status now_sec now_usec =
    let back = record pool {
      coroutines = update pool.coroutines co (record (pool.coroutines co) { status = status });
    } in
    if status == status_exited
    then record back {
      coroutines = update back.coroutines co (record (back.coroutines co) {
        run_count = (back.coroutines co).run_count + 1;
        last_sec = now_sec;
        last_usec = now_usec;
      });
      free_list = co ∷ back.free_list;
      free_count = back.free_count + 1;
      run_count = back.run_count + 1;
    }
    else back

-- The entry before the head, and a chain without an entry.
unfoldable pub last : List ℕ → Option ℕ
last [] = none
last (x ∷ l) = elim (last l) [ none ↦ some x | some y ↦ some y ]

unfoldable pub erase : ℕ → List ℕ → List ℕ
erase x [] = []
erase x (y ∷ l) = let rest = erase x l in if x == y then l else y ∷ rest

-- Whether a coroutine has been idle for long enough.
unfoldable pub is_idle : (idle_millisecs : ℤ) (now_sec now_usec : ℕ) → Coroutine → Bool
is_idle idle_millisecs now_sec now_usec co =
    let millis = scale (difference now_sec co.last_sec) 1000 in
    less idle_millisecs millis
    || (same millis idle_millisecs
        && not_less (difference now_usec co.last_usec) (remainder idle_millisecs 1000))

-- One coroutine leaves the pool.
unfoldable pub drop_one : Pool → ℕ → Pool
drop_one pool co = record pool {
  free_count = pool.free_count - 1;
  full_count = pool.full_count - 1;
  free_list = erase co pool.free_list;
  full_list = erase co pool.full_list;
}

-- The loop of `ef_coroutine_pool_shrink`, from the end of the free list: at most `n` rounds.
unfoldable pub drain : (idle_millisecs : ℤ) (now_sec now_usec n : ℕ) → Pool → ℕ × Pool
drain idle_millisecs now_sec now_usec zero pool = (0, pool)
drain idle_millisecs now_sec now_usec (suc n) pool = elim (last pool.free_list) [
  | none ↦ (0, pool)
  | some co ↦ elim (is_idle idle_millisecs now_sec now_usec (pool.coroutines co)) [
    | false ↦ (0, pool)
    | true ↦
        let rest = drain idle_millisecs now_sec now_usec n (drop_one pool co) in
        (rest.0 + 1, rest.1)
  ]
]

-- How many rounds there are.
unfoldable pub rounds : Pool → (max_count : ℤ) → ℕ
rounds pool max_count =
    let beyond_min = minus pool.full_count pool.limit_min in
    abs (if less beyond_min max_count then beyond_min else max_count)

-- `ef_coroutine_pool_shrink`: how many are freed.
unfoldable pub shrink : (idle_millisecs max_count : ℤ) (now_sec now_usec : ℕ) → Pool → ℕ × Pool
shrink idle_millisecs max_count now_sec now_usec pool =
    if (pool.free_count == 0)
      || (less (pos 0) max_count && not_less pool.limit_min (pos pool.full_count))
    then (0, pool)
    else drain idle_millisecs now_sec now_usec (rounds pool max_count) pool
