-- ===== src/Coroutine/Empty.antt =====
-- Shrinking a pool whose coroutines are all free, as the framework does when it ends.
use eframework.Base.{
  ℕ, zero, suc, ap, ◌≤◌, ◌≡◌, refl, inl, inr, Bool, true, false, ◌&&◌, ◌||◌, some, none, List, [],
  ◌∷◌, arith, length, ◌==◌, if◌then◌else◌, Bool-cases, Option-cases, ltb, leb,
}
use eframework.Base.Int.{ℤ, pos, negsuc, less, negative, abs, minus}
use eframework.Coroutine.{Coroutine, Pool, last, drop_one, is_idle, drain, rounds, shrink}
use eframework.Coroutine.Members.{count, IsValid}
use eframework.Coroutine.Shrink.{last-count, drop_one-IsValid, count-erase}

-- A coroutine was last run before the given time.
abbrev pub is_past : (now_sec now_usec : ℕ) → Coroutine → Bool
is_past now_sec now_usec co =
    ltb co.last_sec now_sec || ((co.last_sec == now_sec) && leb co.last_usec now_usec)

is_past-is_idle :
    (now_sec now_usec : ℕ) (co : Coroutine)
    → is_past now_sec now_usec co ≡ true
    → is_idle (pos 0) now_sec now_usec co ≡ true
unfolding is_idle
is_past-is_idle now_sec now_usec co h = ground (arith, h)

last-some : (x : ℕ) (l : List ℕ) → (y : ℕ) × (last (x ∷ l) ≡ some y)
unfolding last
last-some x [] = (x, refl)
last-some x (z ∷ l) =
    let (y, e) = last-some z l in (y, ap (λ o. elim o [ none ↦ some x | some y' ↦ some y' ]) e)

last-none : (l : List ℕ) → last l ≡ none → length l ≡ 0
last-none [] e = refl
last-none (x ∷ l) e = absurd (let (y, f) = last-some x l in ground (arith, e, f))

drain_all :
    (now_sec now_usec n : ℕ) (pool : Pool)
    → IsValid pool
    → pool.free_count ≡ pool.full_count
    → pool.full_count ≤ n
    → ((x : ℕ) → 1 ≤ count x pool.free_list → is_past now_sec now_usec (pool.coroutines x) ≡ true)
    → (drain (pos 0) now_sec now_usec n pool).1.full_count ≡ 0
unfolding drain drop_one
drain_all now_sec now_usec zero pool v f b h = omega (arith, b)
drain_all now_sec now_usec (suc n) pool v f b h = elim (Option-cases (last pool.free_list)) [
  | inl over ↦ rw (over, drain) (omega (arith, last-none pool.free_list over, v.free_is, f))
  | inr (co, found) ↦
      let next = drop_one-IsValid pool co found v in
      let old =
        is_past-is_idle now_sec now_usec (pool.coroutines co)
          (h co (last-count pool.free_list co found)) in
      let rest =
        drain_all now_sec now_usec n (drop_one pool co) next.0 (omega (arith, next.1, next.2, f))
          (omega (arith, next.1, b))
          (λ x c. h x (omega (arith, count-erase x co pool.free_list, c))) in
      rw (found, old, drain) rest
]

negative_below : (n : ℕ) → less (pos 0) (negative n) ≡ false
negative_below zero = ground arith
negative_below (suc n) = refl

-- So many rounds that each coroutine of the pool can be dropped.
rounds_negative :
    (n : ℕ) (limit : ℤ)
    → n ≤ abs (if less (minus n limit) (negative n) then minus n limit else negative n)
rounds_negative zero limit = omega arith
rounds_negative (suc n) (pos l) = ground arith
rounds_negative (suc n) (negsuc l) = ground arith

pub shrink_to_empty :
    (now_sec now_usec : ℕ) (pool : Pool)
    → IsValid pool
    → pool.free_count ≡ pool.full_count
    → ((x : ℕ) → 1 ≤ count x pool.free_list → is_past now_sec now_usec (pool.coroutines x) ≡ true)
    → (shrink (pos 0) (negative pool.full_count) now_sec now_usec pool).1.full_count ≡ 0
unfolding shrink
shrink_to_empty now_sec now_usec pool v f h = elim (Bool-cases (pool.free_count == 0)) [
  | inl none_left ↦ rw none_left (ground (arith, none_left, f))
  | inr some_left ↦
      let below = negative_below pool.full_count in
      let all = rounds_negative pool.full_count pool.limit_min in
      rw (some_left, below)
        (drain_all now_sec now_usec (rounds pool (negative pool.full_count)) pool v f
          (unfold rounds in all) h)
]
