-- ===== src/Coroutine/Members.antt =====
-- The chains and the counts of a pool of coroutines.
use eframework.Base.{
  ℕ, ◌+◌, ◌-◌, ◌≤◌, ◌≡◌, refl, ◌⊎◌, inl, inr, Bool, true, false, not, ◌&&◌, ◌||◌, Option, none,
  some, List, [], ◌∷◌, arith, length, ltb, ◌==◌, if◌then◌else◌, Bool-cases,
}
use eframework.Base.Int.{ℤ, pos, negsuc, not_less}
use eframework.Table.{update}
use eframework.Fiber.{status_exited}
use eframework.Coroutine.{Coroutine, Pool, init, restart, create, can_resume, resumed}

-- How often `x` is in a list.
unfoldable pub count : ℕ → List ℕ → ℕ
count x [] = 0
count x (y ∷ l) = (if x == y then 1 else 0) + count x l

-- Each coroutine is in the pool once, and it is on the free list if it has exited.
pub record IsValid (pool : Pool) : Type 0 where
  pub full_is : pool.full_count ≡ length pool.full_list
  pub free_is : pool.free_count ≡ length pool.free_list
  pub once : (x : ℕ) → count x pool.full_list ≤ 1
  pub freed :
      (x : ℕ)
      → count x pool.free_list
        ≡ (if (pool.coroutines x).status == status_exited then count x pool.full_list else 0)
  pub limited : ((pool.full_count == 0) || not_less pool.limit_max (pos pool.full_count)) ≡ true

pub init-IsValid :
    (memory : ℕ → Coroutine) (stack_size : ℕ) (limit_min limit_max : ℤ)
    → IsValid (init memory stack_size limit_min limit_max)
unfolding init count
init-IsValid memory stack_size limit_min limit_max = record {
  full_is = refl;
  free_is = refl;
  once = λ x. omega arith;
  freed = λ x. ground arith;
  limited = refl;
}

-- One more coroutine is still within the limit.
not_less-suc : (n : ℕ) (m : ℤ) → not_less (pos n) m ≡ false → not_less m (pos (n + 1)) ≡ true
not_less-suc n (pos m) h = ground arith
not_less-suc n (negsuc m) h = absurd (ground arith)

reuse-IsValid :
    (pool : Pool) (co : ℕ) (rest : List ℕ)
    → pool.free_list ≡ co ∷ rest
    → IsValid pool
    → IsValid (record pool {
      free_count = pool.free_count - 1;
      free_list = rest;
      coroutines = update pool.coroutines co (restart (pool.coroutines co));
    })
unfolding count restart
reuse-IsValid pool co rest e v =
    let counts : (x : ℕ) → count x pool.free_list ≡ (if x == co then 1 else 0) + count x rest =
      λ x. rw (e, count) refl in
    let size : length pool.free_list ≡ length rest + 1 = rw e (omega arith) in
    record {
      full_is = v.full_is;
      free_is = omega (arith, v.free_is, size);
      once = v.once;
      freed = λ x. ground (arith, v.freed x, counts x, v.once x);
      limited = v.limited;
    }

add-IsValid :
    (pool : Pool) (co : ℕ) (page : Coroutine)
    → count co pool.full_list ≡ 0
    → not_less (pos pool.full_count) pool.limit_max ≡ false
    → IsValid pool
    → IsValid (record pool {
      full_count = pool.full_count + 1;
      full_list = co ∷ pool.full_list;
      coroutines = update pool.coroutines co (record (restart page) { run_count = 0 });
    })
unfolding count restart
add-IsValid pool co page new room v = record {
  full_is = omega (arith, v.full_is);
  free_is = v.free_is;
  once = λ x. ground (arith, v.once x);
  freed = λ x. ground (arith, v.freed x, v.freed co);
  limited = ground (arith, not_less-suc pool.full_count pool.limit_max room);
}

abbrev pub is_some : {A : Type 0} → Option A → Bool
is_some none = false
is_some (some x) = true

-- What a call of `ef_coroutine_create` gives.
pub record Created (fiber : Option (ℕ × Coroutine)) (pool : Pool) : Type 0 where
  pub answer : Option ℕ
  pub result : Pool
  pub runs : create fiber pool ≡ some (answer, result)
  pub valid : IsValid result
  pub given : is_some answer ≡ (
      ltb 0 pool.free_count
      || (not (not_less (pos pool.full_count) pool.limit_max) && is_some fiber))

-- A new fiber's page is not part of the pool.
abbrev pub IsFresh : Option (ℕ × Coroutine) → Pool → Type 0
IsFresh none pool = Unit
IsFresh (some (co, page)) pool = count co pool.full_list ≡ 0

pub list_cases : (l : List ℕ) → (l ≡ []) ⊎ ((x : ℕ) × (rest : List ℕ) × (l ≡ x ∷ rest))
list_cases [] = inl refl
list_cases (x ∷ l) = inr (x, l, refl)

add_to :
    (pool : Pool)
    → ltb 0 pool.free_count ≡ false
    → not_less (pos pool.full_count) pool.limit_max ≡ false
    → (fiber : Option (ℕ × Coroutine)) → IsFresh fiber pool
    → IsValid pool
    → Created fiber pool
unfolding create
add_to pool used room none f v = record {
  answer = none;
  result = pool;
  runs = rw (used, room, create) refl;
  valid = v;
  given = rw (used, room) refl;
}
add_to pool used room (some (co, page)) f v = record {
  answer = some co;
  result = _;
  runs = rw (used, room, create) refl;
  valid = add-IsValid pool co page f room v;
  given = rw (used, room) refl;
}

-- `ef_coroutine_create` on a valid pool, where a new fiber is not yet in the pool: it never takes
-- from an empty chain, the pool stays valid and within its upper limit, and a coroutine is given
-- exactly if one is free, or if the limit is not reached and a fiber can be made.
pub create-Valid :
    (fiber : Option (ℕ × Coroutine)) (pool : Pool)
    → IsFresh fiber pool
    → IsValid pool
    → Created fiber pool
unfolding create
create-Valid fiber pool f v = elim (Bool-cases (ltb 0 pool.free_count)) [
  | inl free ↦ elim (list_cases pool.free_list) [
    | inl empty ↦ absurd (ground (arith, v.free_is, empty))
    | inr (co, rest, e) ↦ record {
      answer = some co;
      result = _;
      runs = rw (free, e, create) refl;
      valid = reuse-IsValid pool co rest e v;
      given = rw free refl;
    }
  ]
  | inr used ↦ elim (Bool-cases (not_less (pos pool.full_count) pool.limit_max)) [
    | inl full ↦ record {
      answer = none;
      result = pool;
      runs = rw (used, full, create) refl;
      valid = v;
      given = rw (used, full) refl;
    }
    | inr room ↦ add_to pool used room fiber f v
  ]
]

-- The second half of `ef_coroutine_resume` keeps a pool valid, for a coroutine of the pool that
-- was ready when it was resumed, whatever status it comes back with.
pub resumed-IsValid :
    (pool : Pool) (co status now_sec now_usec : ℕ)
    → count co pool.full_list ≡ 1
    → can_resume pool co ≡ true
    → IsValid pool
    → IsValid (resumed pool co status now_sec now_usec)
unfolding count can_resume resumed
resumed-IsValid pool co status now_sec now_usec m r v =
    elim (Bool-cases (status == status_exited)) [
      | inr yielded ↦ rw yielded record {
        full_is = v.full_is;
        free_is = v.free_is;
        once = v.once;
        freed = λ x. ground (arith, v.freed x);
        limited = v.limited;
      }
      | inl exited ↦ rw exited record {
        full_is = v.full_is;
        free_is = omega (arith, v.free_is);
        once = v.once;
        freed = λ x. ground (arith, v.freed x);
        limited = v.limited;
      }
    ]
