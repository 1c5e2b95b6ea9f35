-- ===== src/Table.antt =====
-- What src/poll.c and src/epollet.c share: an array `index` from file descriptors to positions, and
-- an array of entries whose first `used` positions name their descriptors by `key`.
-- An array is a function from positions, with its capacity beside it; -1 in `index` is `none`.
pub mod Vacant
pub mod Moves
pub mod Growth
use eframework.Base.{ℕ, zero, suc, ◌+◌, ◌<◌, ◌≡◌, ◌≢◌, Option, none, some, ◌==◌, if◌then◌else◌}

-- A write to one position of an array.
abbrev pub update {ℓ} : {A : Type ℓ} → (ℕ → A) → ℕ → A → ℕ → A
update f i v j = if i == j then v else f j

-- The number of positions below `n` that hold -1.
unfoldable pub vacant : (ℕ → Option ℕ) → ℕ → ℕ
vacant index zero = 0
vacant index (suc n) = elim (index n) [ none ↦ suc (vacant index n) | some _ ↦ vacant index n ]

-- The two arrays are inverse to each other, and each descriptor has its place.
pub record IsTable (cap used : ℕ) (index : ℕ → Option ℕ) (key : ℕ → ℕ) : Type 0 where
  pub bound : (i : ℕ) → i < used → key i < cap
  pub there : (i : ℕ) → i < used → index (key i) ≡ some i
  pub back : (k i : ℕ) → k < cap → index k ≡ some i → (i < used) × (key i ≡ k)
  pub room : used + vacant index cap ≡ cap

-- The same while position `hole` is being emptied.
pub record HasHole (cap used hole : ℕ) (index : ℕ → Option ℕ) (key : ℕ → ℕ) : Type 0 where
  pub inside : hole < used
  pub bound : (i : ℕ) → i < used → i ≢ hole → key i < cap
  pub there : (i : ℕ) → i < used → i ≢ hole → index (key i) ≡ some i
  pub back : (k i : ℕ) → k < cap → index k ≡ some i → (i < used) × (i ≢ hole) × (key i ≡ k)
  pub room : used + vacant index cap ≡ suc cap
