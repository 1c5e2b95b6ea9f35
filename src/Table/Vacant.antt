-- ===== src/Table/Vacant.antt =====
-- The count of free descriptors under a write.
use eframework.Base.{ℕ, zero, suc, ◌+◌, ◌≤◌, ◌<◌, ◌≡◌, refl, ap, Option, none, some, arith}
use eframework.Table.{update, vacant}

pub vacant_ext :
    (f g : ℕ → Option ℕ) (n : ℕ) → ((i : ℕ) → i < n → f i ≡ g i) → vacant f n ≡ vacant g n
unfolding vacant
vacant_ext f g zero h = refl
vacant_ext f g (suc n) h =
    ground (arith, h n (omega arith), vacant_ext f g n (λ i p. h i (omega arith)))

-- A write above the range changes nothing.
vacant-update_above :
    (f : ℕ → Option ℕ) (k : ℕ) (v : Option ℕ) (n : ℕ) → n ≤ k → vacant (update f k v) n ≡ vacant f n
vacant-update_above f k v n h = vacant_ext (update f k v) f n (λ i p. ground arith)

-- A free descriptor is taken.
pub vacant-take :
    (f : ℕ → Option ℕ) (k i n : ℕ)
    → k < n
    → f k ≡ none
    → suc (vacant (update f k (some i)) n) ≡ vacant f n
unfolding vacant
vacant-take f k i zero h e = absurd (omega arith)
vacant-take f k i (suc n) h e =
    ground (arith, vacant-take f k i n, vacant-update_above f k (some i) n)

-- A taken one is given back.
pub vacant-free :
    (f : ℕ → Option ℕ) (k i n : ℕ)
    → k < n
    → f k ≡ some i
    → vacant (update f k none) n ≡ suc (vacant f n)
unfolding vacant
vacant-free f k i zero h e = absurd (omega arith)
vacant-free f k i (suc n) h e = ground (arith, vacant-free f k i n, vacant-update_above f k none n)

-- A taken one moves to another position.
pub vacant-move :
    (f : ℕ → Option ℕ) (k i j n : ℕ)
    → k < n
    → f k ≡ some i
    → vacant (update f k (some j)) n ≡ vacant f n
unfolding vacant
vacant-move f k i j zero h e = absurd (omega arith)
vacant-move f k i j (suc n) h e =
    ground (arith, vacant-move f k i j n, vacant-update_above f k (some j) n)

-- More descriptors, all of them free.
pub vacant_grow :
    (f : ℕ → Option ℕ) (n m : ℕ)
    → ((i : ℕ) → n ≤ i → f i ≡ none)
    → vacant f (m + n) ≡ m + vacant f n
unfolding vacant
vacant_grow f n zero h = let e : 0 + n ≡ n = omega arith in rw e (omega arith)
vacant_grow f n (suc m) h =
    let e : suc m + n ≡ suc (m + n) = omega arith in
    rw e (ground (arith, h (m + n) (omega arith), vacant_grow f n m h))

-- All descriptors are free at first.
pub vacant-none : (n : ℕ) → vacant (λ _. none) n ≡ n
unfolding vacant
vacant-none zero = refl
vacant-none (suc n) = ap suc (vacant-none n)
