-- ===== src/Coroutine/Shrink.antt =====
-- Shrinking a pool of coroutines: which coroutines leave it, and how many.
use eframework.Base.{
  ℕ, zero, suc, ◌+◌, ◌-◌, ◌≤◌, ◌<◌, ◌≡◌, refl, ◌∙◌, inl, inr, true, false, ◌&&◌, ◌||◌, some, List,
  [], ◌∷◌, arith, min, length, leb, ◌==◌, if◌then◌else◌, Bool-cases, Option-cases,
}
use eframework.Base.Int.{ℤ, pos, negsuc, less, not_less}
use eframework.Coroutine.{Pool, last, erase, drop_one, is_idle, drain, rounds, shrink}
use eframework.Coroutine.Members.{count, IsValid}

pub last-count : (l : List ℕ) (x : ℕ) → last l ≡ some x → 1 ≤ count x l
unfolding last count
last-count [] x e = absurd (ground arith)
last-count (y ∷ l) x e = elim (Option-cases (last l)) [
  | inl none_left ↦ ground (arith, none_left)
  | inr (z, found) ↦ ground (arith, found, last-count l z found)
]

pub count-erase :
    (x y : ℕ) (l : List ℕ) → count x (erase y l) ≡ count x l - (if x == y then 1 else 0)
unfolding count erase
count-erase x y [] = ground arith
count-erase x y (z ∷ l) = ground (arith, count-erase x y l)

length-erase : (x : ℕ) (l : List ℕ) → 1 ≤ count x l → length (erase x l) + 1 ≡ length l
unfolding count erase
length-erase x [] h = absurd (omega arith)
length-erase x (y ∷ l) h = elim (Bool-cases (x == y)) [
  | inl here ↦ rw here (omega arith)
  | inr there ↦ let rest = length-erase x l (ground arith) in rw there (omega (arith, rest))
]

not_less-pred :
    (n : ℕ) (m : ℤ)
    → ((n == 0) || not_less m (pos n)) ≡ true
    → ((n - 1 == 0) || not_less m (pos (n - 1))) ≡ true
not_less-pred n (pos m) h = ground arith
not_less-pred n (negsuc m) h = ground arith

pub drop_one-IsValid :
    (pool : Pool) (co : ℕ)
    → last pool.free_list ≡ some co
    → IsValid pool
    → IsValid (drop_one pool co)
      × (pool.full_count ≡ (drop_one pool co).full_count + 1)
      × (pool.free_count ≡ (drop_one pool co).free_count + 1)
      × ((drop_one pool co).limit_min ≡ pool.limit_min)
unfolding drop_one
drop_one-IsValid pool co e v =
    let free : 1 ≤ count co pool.free_list = last-count pool.free_list co e in
    let full : 1 ≤ count co pool.full_list = ground (arith, v.freed co) in
    (
      record {
        full_is = omega (arith, v.full_is, length-erase co pool.full_list full);
        free_is = omega (arith, v.free_is, length-erase co pool.free_list free);
        once = λ x. omega (arith, count-erase x co pool.full_list, v.once x);
        freed = λ x.
            ground
              (arith, count-erase x co pool.full_list, count-erase x co pool.free_list, v.freed x);
        limited = not_less-pred pool.full_count pool.limit_max v.limited;
      },
      omega (arith, v.full_is, length-erase co pool.full_list full),
      omega (arith, v.free_is, length-erase co pool.free_list free),
      refl,
    )

-- What the loop does to a pool, in at most `n` rounds.
pub record Drained (n : ℕ) (pool : Pool) (out : ℕ × Pool) : Type 0 where
  pub valid : IsValid out.1
  pub full : out.0 + out.1.full_count ≡ pool.full_count
  pub free : out.0 + out.1.free_count ≡ pool.free_count
  pub bound : out.0 ≤ n
  pub kept : out.1.limit_min ≡ pool.limit_min

undrained : (n : ℕ) (pool : Pool) → IsValid pool → Drained n pool (0, pool)
undrained n pool v = record {
  valid = v;
  full = omega arith;
  free = omega arith;
  bound = omega arith;
  kept = refl;
}

drain-Drained :
    (idle : ℤ) (now_sec now_usec n : ℕ) (pool : Pool)
    → IsValid pool
    → Drained n pool (drain idle now_sec now_usec n pool)
unfolding drain
drain-Drained idle now_sec now_usec zero pool v = undrained zero pool v
drain-Drained idle now_sec now_usec (suc n) pool v = elim (Option-cases (last pool.free_list)) [
  | inl over ↦ rw (over, drain) (undrained (suc n) pool v)
  | inr (co, found) ↦ elim (Bool-cases (is_idle idle now_sec now_usec (pool.coroutines co))) [
    | inr young ↦ rw (found, young, drain) (undrained (suc n) pool v)
    | inl old ↦
        let next = drop_one-IsValid pool co found v in
        let rest = drain-Drained idle now_sec now_usec n (drop_one pool co) next.0 in
        rw (found, old, drain)
          record {
            valid = rest.valid;
            full = omega (arith, rest.full, next.1);
            free = omega (arith, rest.free, next.2);
            bound = omega (arith, rest.bound);
            kept = rest.kept ∙ next.3;
          }
  ]
]

shrink-Drained :
    (idle max_count : ℤ) (now_sec now_usec : ℕ) (pool : Pool)
    → IsValid pool
    → Drained (rounds pool max_count) pool (shrink idle max_count now_sec now_usec pool)
unfolding shrink
shrink-Drained idle max_count now_sec now_usec pool v =
    let early =
      (pool.free_count == 0)
      || (less (pos 0) max_count && not_less pool.limit_min (pos pool.full_count)) in
    elim (Bool-cases early) [
      | inl stop ↦ rw stop (undrained (rounds pool max_count) pool v)
      | inr go ↦ rw go (drain-Drained idle now_sec now_usec (rounds pool max_count) pool v)
    ]

-- `ef_coroutine_pool_shrink` on a valid pool leaves a valid pool, and the number that it returns
-- is the number of coroutines by which both chains have become shorter.
pub shrink_lem :
    (idle max_count : ℤ) (now_sec now_usec : ℕ) (pool : Pool)
    → IsValid pool
    → let out = shrink idle max_count now_sec now_usec pool in
      IsValid out.1
      × (out.0 + out.1.full_count ≡ pool.full_count)
      × (out.0 + out.1.free_count ≡ pool.free_count)
shrink_lem idle max_count now_sec now_usec pool v =
    let d = shrink-Drained idle max_count now_sec now_usec pool v in (d.valid, d.full, d.free)

-- The rounds for a positive `max_count`, by the sign of the lower limit.
rounds-pos :
    (pool : Pool) (m l : ℕ)
    → pool.limit_min ≡ pos l
    → l < pool.full_count
    → rounds pool (pos m) ≡ min (pool.full_count - l) m
unfolding rounds
rounds-pos pool m l e h =
    let inside : leb l pool.full_count ≡ true = ground arith in rw (e, inside) (ground arith)

rounds-negsuc :
    (pool : Pool) (m l : ℕ)
    → pool.limit_min ≡ negsuc l
    → rounds pool (pos m) ≡ min (pool.full_count + l + 1) m
unfolding rounds
rounds-negsuc pool m l e = rw e (ground arith)

-- Both limits hold where the number of rounds is as above.
rounds_keep_limits :
    (n m : ℕ) (pool : Pool) (out : ℕ × Pool) (limit : ℤ)
    → pool.limit_min ≡ limit
    → less limit (pos pool.full_count) ≡ true
    → n ≡ rounds pool (pos m)
    → Drained n pool out
    → (out.0 ≤ m) × (not_less (pos out.1.full_count) limit ≡ true)
rounds_keep_limits n m pool out (pos l) e h r d =
    let rounds_are = rounds-pos pool m l e (ground arith) in
    (omega (arith, d.bound, r, rounds_are), ground (arith, d.bound, d.full, rounds_are))
rounds_keep_limits n m pool out (negsuc l) e h r d =
    (omega (arith, d.bound, r, rounds-negsuc pool m l e), refl)

-- `ef_coroutine_pool_shrink` of a valid pool with a positive `max_count` frees at most that many
-- coroutines, and if it frees any the pool keeps at least the lower limit.
pub shrink-limits :
    (idle : ℤ) (m now_sec now_usec : ℕ) (pool : Pool)
    → IsValid pool
    → let out = shrink idle (pos (suc m)) now_sec now_usec pool in
      (out.0 ≤ suc m) × (((out.0 == 0) || not_less (pos out.1.full_count) pool.limit_min) ≡ true)
unfolding shrink
shrink-limits idle m now_sec now_usec pool v =
    let n = rounds pool (pos (suc m)) in
    let early = (pool.free_count == 0) || not_less pool.limit_min (pos pool.full_count) in
    elim (Bool-cases early) [
      | inl stop ↦
          let still : shrink idle (pos (suc m)) now_sec now_usec pool ≡ (0, pool) =
            ground (arith, stop) in
          rw still (omega arith, refl)
      | inr go ↦
          let runs : shrink idle (pos (suc m)) now_sec now_usec pool
              ≡ drain idle now_sec now_usec n pool =
            ground (arith, go) in
          let above : less pool.limit_min (pos pool.full_count) ≡ true = ground (arith, go) in
          let limits =
            rounds_keep_limits n (suc m) pool (drain idle now_sec now_usec n pool) pool.limit_min
              refl above refl (drain-Drained idle now_sec now_usec n pool v) in
          rw runs (limits.0, ground (arith, limits.1))
    ]

-- With a `max_count` of 0 and fewer coroutines than the lower limit, the loop of
-- `ef_coroutine_pool_shrink` may free as many as are missing.
pub rounds-below :
    (pool : Pool) (l : ℕ)
    → pool.limit_min ≡ pos l
    → pool.full_count < l
    → rounds pool (pos 0) ≡ l - pool.full_count
unfolding rounds
rounds-below pool l e h =
    let beyond : leb l pool.full_count ≡ false = ground arith in rw (e, beyond) (omega arith)
