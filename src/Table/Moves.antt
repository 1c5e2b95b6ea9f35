-- ===== src/Table/Moves.antt =====
-- How the two arrays change together: a new entry, an exchange of two, and removal through a hole.
use mathlib.Core.Path.{fun_ext, subst}
use eframework.Base.{ℕ, suc, ◌<◌, ◌≡◌, ◌≢◌, sym, Option, none, some, arith}
use eframework.Table.{update, IsTable, HasHole}
use eframework.Table.Vacant.{vacant-take, vacant-free, vacant-move}

-- A table is one for any arrays with the same entries.
pub IsTable-ext :
    {cap used : ℕ} {index index' : ℕ → Option ℕ} {key key' : ℕ → ℕ}
    → IsTable cap used index key
    → ((k : ℕ) → index' k ≡ index k)
    → ((i : ℕ) → key' i ≡ key i)
    → IsTable cap used index' key'
IsTable-ext {cap} {used} {index} {index'} {key} {key'} t f g =
    subst (λ h. IsTable cap used h key') (sym (fun_ext f))
      (subst (λ h. IsTable cap used index h) (sym (fun_ext g)) t)

module _ {cap used : ℕ} {index : ℕ → Option ℕ} {key : ℕ → ℕ} where
  -- A descriptor that is not in the table goes behind the others.
  pub insert-IsTable :
      (k : ℕ)
      → IsTable cap used index key
      → k < cap
      → index k ≡ none
      → IsTable cap (suc used) (update index k (some used)) (update key used k)
  insert-IsTable k t h e = record {
    bound = λ i p. ground (arith, t.bound i);
    there = λ i p. ground (arith, t.there i);
    back = λ k' i p q. ground (arith, t.back k' i);
    room = omega (arith, t.room, vacant-take index k used cap h e);
  }

  -- Two entries change places.
  pub exchange-IsTable :
      (i j : ℕ)
      → IsTable cap used index key
      → i < used
      → j < used
      → IsTable cap used
          (update (update index (key j) (some i)) (key i) (some j))
          (update (update key j (key i)) i (key j))
  exchange-IsTable i j t p q = record {
    bound = λ x r. ground (arith, t.bound x r, t.bound i p, t.bound j q);
    there = λ x r. ground (arith, t.there x r, t.there i p, t.there j q);
    back = λ k x r e. ground (arith, t.back k x r, t.there i p, t.there j q);
    room = omega (
      arith,
      t.room,
      vacant-move index (key j) j i cap (t.bound j q) (t.there j q),
      vacant-move (update index (key j) (some i)) (key i) i j cap (t.bound i p)
          (ground (arith, t.there i p)),
    );
  }

  -- Taking a descriptor out leaves a hole at its position.
  pub release-HasHole :
      (k hole : ℕ)
      → IsTable cap used index key
      → k < cap
      → index k ≡ some hole
      → HasHole cap used hole (update index k none) key
  release-HasHole k hole t h e = record {
    inside = (t.back k hole h e).0;
    bound = λ i p q. t.bound i p;
    there = λ i p q. ground (arith, t.there i, t.back k hole);
    back = λ k' i p q. ground (arith, t.back k' i, t.back k hole, t.there i);
    room = omega (arith, t.room, vacant-free index k hole cap h e);
  }

  -- Another entry is copied into the hole, which is then where that entry was.
  pub fill-HasHole :
      (hole j : ℕ)
      → HasHole cap used hole index key
      → j < used
      → j ≢ hole
      → HasHole cap used j (update index (key j) (some hole)) (update key hole (key j))
  fill-HasHole hole j t p q = record {
    inside = p;
    bound = λ x r s. ground (arith, t.bound x r, t.bound j p q);
    there = λ x r s. ground (arith, t.there x r, t.there j p q, t.inside);
    back = λ k x r e. ground (arith, t.back k x r, t.there j p q, t.inside);
    room =
        omega (arith, t.room, vacant-move index (key j) j hole cap (t.bound j p q) (t.there j p q));
  }

  -- A hole at the end is cut off.
  pub close-IsTable :
      (last : ℕ) → HasHole cap used last index key → suc last ≡ used → IsTable cap last index key
  close-IsTable last t e = record {
    bound = λ i p. t.bound i (omega arith) (omega arith);
    there = λ i p. t.there i (omega arith) (omega arith);
    back = λ k i p q. let b = t.back k i p q in (omega (arith, b.0, b.1), b.2);
    room = omega (arith, t.room);
  }
