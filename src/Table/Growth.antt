-- ===== src/Table/Growth.antt =====
-- The doubling of the capacity (`while (cap <= fd) cap <<= 1`), and the arrays after it.
use mathlib.Core.Path.{fun_ext}
use eframework.Base.{
  ℕ, zero, suc, ◌+◌, ◌-◌, ◌*◌, ◌≤◌, ◌<◌, ◌≡◌, true, false, Option, none, arith, ltb, leb,
  if◌then◌else◌,
}
use eframework.Table.{update, vacant, IsTable}
use eframework.Table.Vacant.{vacant_ext, vacant_grow}

-- The loop on fuel; with too little fuel the capacity stays too small.
unfoldable pub double_until : ℕ → ℕ → ℕ → ℕ
double_until zero cap fd = cap
double_until (suc fuel) cap fd = elim (leb cap fd) [
  | true ↦ double_until fuel (cap * 2) fd
  | false ↦ cap
]

-- `fd + 1` rounds are enough, and the capacity never falls.
pub double_until-lt :
    (fuel cap fd : ℕ)
    → 1 ≤ cap
    → fd < cap + fuel
    → (fd < double_until fuel cap fd) × (cap ≤ double_until fuel cap fd)
unfolding double_until
double_until-lt zero cap fd p h = (omega arith, omega arith)
double_until-lt (suc fuel) cap fd p h = ground (arith, double_until-lt fuel (cap * 2) fd)

-- The capacity is less than twice what is needed, so the shift does not overflow an `int` for
-- descriptors below 2 ^ 30.
pub double_until-le :
    (fuel cap fd bound : ℕ) → cap ≤ bound → fd + fd ≤ bound → double_until fuel cap fd ≤ bound
unfolding double_until
double_until-le zero cap fd bound p h = p
double_until-le (suc fuel) cap fd bound p h =
    ground (arith, double_until-le fuel (cap * 2) fd bound)

-- What `memset(index + cap, -1, …)` leaves.
abbrev pub cleared {ℓ} : {A : Type ℓ} → A → ℕ → (ℕ → A) → ℕ → A
cleared blank cap f i = if ltb i cap then f i else blank

-- A field of the entries after a write.
pub field-update {ℓ κ} :
    {A : Type ℓ} {B : Type κ} (g : A → B) (f : ℕ → A) (i : ℕ) (v : A)
    → (λ j. g (update f i v j)) ≡ update (λ j. g (f j)) i (g v)
field-update g f i v = fun_ext λ j. ground arith

-- A table stays one when its capacity grows and the new positions are cleared.
pub grow-IsTable :
    {cap used : ℕ} {index : ℕ → Option ℕ} {key : ℕ → ℕ} (cap' : ℕ)
    → IsTable cap used index key
    → cap ≤ cap'
    → IsTable cap' used (cleared none cap index) key
grow-IsTable {cap} {used} {index} {key} cap' t h =
    let more : cap' - cap + cap ≡ cap' = omega arith in
    let fresh : vacant (cleared none cap index) (cap' - cap + cap) ≡ cap' - cap + vacant index cap =
      grown in
    record {
      bound = λ i p. omega (arith, t.bound i p);
      there = λ i p. ground (arith, t.there i p, t.bound i p);
      back = λ k i p q. ground (arith, t.back k i);
      room = ground (arith, t.room, fresh, more);
    }
  where
    grown : vacant (cleared none cap index) (cap' - cap + cap) ≡ cap' - cap + vacant index cap
    grown = omega (
      arith,
      vacant_grow (cleared none cap index) cap (cap' - cap) (λ i p. ground arith),
      vacant_ext (cleared none cap index) index cap (λ i p. ground arith),
    )
