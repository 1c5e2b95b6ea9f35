-- ===== src/Structure/DList/Ring.antt =====
-- Which entries a circular list holds.
use eframework.Base.{
  ℕ, ◌≡◌, refl, Bool, true, false, ◌||◌, List, [], ◌∷◌, inl, inr, Bool-cases, arith, ◌==◌,
}
use eframework.Table.{update}
use eframework.Structure.DList.{Links, init}

unfoldable pub has : ℕ → List ℕ → Bool
has x [] = false
has x (y ∷ l) = (x == y) || has x l

-- From `a` through the entries to `b`, in both directions.
abbrev pub IsSegment : Links → (a : ℕ) → List ℕ → (b : ℕ) → Type 0
IsSegment l a [] b = (l.next a ≡ b) × (l.prev b ≡ a)
IsSegment l a (x ∷ xs) b = (l.next a ≡ x) × ((l.prev x ≡ a) × IsSegment l x xs b)

abbrev pub IsDistinct : List ℕ → Type 0
IsDistinct [] = Unit
IsDistinct (x ∷ xs) = (has x xs ≡ false) × IsDistinct xs

-- The list of `head` holds the entries, in this order behind the head.
pub record IsRing (l : Links) (head : ℕ) (xs : List ℕ) : Type 0 where
  pub segment : IsSegment l head xs head
  pub distinct : IsDistinct (head ∷ xs)

pub init-IsRing : (l : Links) (head : ℕ) → IsRing (init l head) head []
unfolding init has
init-IsRing l head = record { segment = (ground arith, ground arith); distinct = (refl, tt) }

-- Writes elsewhere do not matter: `next` at `p` and `q`, `prev` at `r` and `s`.
pub IsSegment-frame :
    (l : Links) (a b p p' q q' r r' s s' : ℕ) (xs : List ℕ)
    → IsSegment l a xs b
    → has p (a ∷ xs) ≡ false
    → has q (a ∷ xs) ≡ false
    → has r (b ∷ xs) ≡ false
    → has s (b ∷ xs) ≡ false
    → IsSegment
        (record {
          prev = update (update l.prev r r') s s';
          next = update (update l.next p p') q q';
        })
        a
        xs
        b
unfolding has
IsSegment-frame l a b p p' q q' r r' s s' [] (f, g) hp hq hr hs = (ground arith, ground arith)
IsSegment-frame l a b p p' q q' r r' s s' (x ∷ xs) (f, (g, rest)) hp hq hr hs = (
  ground arith,
  (
    ground arith,
    IsSegment-frame l x b p p' q q' r r' s s' xs rest (ground arith) (ground arith) (ground arith)
        (ground arith),
  ),
)

-- The entry before the end of a segment, and the one behind its start, are in it.
pub has-prev :
    (l : Links) (a b : ℕ) (xs : List ℕ) → IsSegment l a xs b → has (l.prev b) (a ∷ xs) ≡ true
unfolding has
has-prev l a b [] (f, g) = ground arith
has-prev l a b (x ∷ xs) (f, (g, rest)) = ground (arith, has-prev l x b xs rest)

pub has-next :
    (l : Links) (a b : ℕ) (xs : List ℕ) → IsSegment l a xs b → has (l.next a) (b ∷ xs) ≡ true
unfolding has
has-next l a b [] (f, g) = ground arith
has-next l a b (x ∷ xs) (f, (g, rest)) = ground arith

pub apart : (x y : ℕ) (l : List ℕ) → has x l ≡ true → has y l ≡ false → (x == y) ≡ false
unfolding has
apart x y [] p q = absurd (ground arith)
apart x y (z ∷ l) p q = elim (Bool-cases (x == z)) [
  | inl here ↦ ground arith
  | inr there ↦ apart x y l (ground arith) (ground arith)
]
