-- ===== src/Base/Checked.antt =====
-- A test that holds below a bound, by evaluation.
use eframework.Base.{
  ℕ, zero, suc, ◌<◌, ◌≡◌, Bool, true, false, inl, inr, arith, ◌==◌, if◌then◌else◌, Bool-cases,
}

unfoldable pub checked : (ℕ → Bool) → ℕ → Bool
checked f zero = true
checked f (suc n) = if f n then checked f n else false

pub checked-all : (f : ℕ → Bool) (n i : ℕ) → checked f n ≡ true → i < n → f i ≡ true
unfolding checked
checked-all f zero i c h = absurd (omega arith)
checked-all f (suc n) i c h = elim (Bool-cases (f n)) [
  | inl here ↦ elim (Bool-cases (i == n)) [
    | inl same ↦ let e : i ≡ n = ground (arith, same) in rw e here
    | inr other ↦ checked-all f n i (rw here at c) (ground (arith, other))
  ]
  | inr bad ↦ absurd (ground (arith, bad, c))
]
