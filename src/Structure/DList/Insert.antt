-- ===== src/Structure/DList/Insert.antt =====
-- Insertion behind and before the head of a circular list.
use eframework.Base.{ℕ, ◌≡◌, refl, false, List, [], ◌∷◌, ◌++◌, arith, ◌==◌}
use eframework.Table.{update}
use eframework.Structure.DList.{Links, insert_after, insert_before}
use eframework.Structure.DList.Ring.{
  has, IsSegment, IsDistinct, IsRing, IsSegment-frame, has-prev, apart,
}

insert_after-IsSegment :
    (l : Links) (head entry : ℕ) (xs : List ℕ)
    → IsSegment l head xs head
    → IsDistinct (head ∷ xs)
    → has entry (head ∷ xs) ≡ false
    → IsSegment (insert_after l head entry) head (entry ∷ xs) head
unfolding insert_after has
insert_after-IsSegment l head entry [] (f, g) d h =
    (ground arith, (ground arith, (ground arith, ground arith)))
insert_after-IsSegment l head entry (x ∷ xs) (f, (g, rest)) d h =
    let behind = update (update l.next entry (l.next head)) head entry entry in
    let same : behind ≡ x = ground arith in
    let kept =
      IsSegment-frame l x head entry (l.next head) head entry entry head behind entry xs rest
        (ground arith) (ground arith) (ground arith) (ground (arith, same)) in
    (ground arith, (ground arith, (ground arith, (ground arith, kept))))

-- `ef_list_insert_after` at the head puts an entry that is neither the head nor in its list in
-- front of the others.
pub insert_after-IsRing :
    (l : Links) (head entry : ℕ) (xs : List ℕ)
    → IsRing l head xs
    → has entry (head ∷ xs) ≡ false
    → IsRing (insert_after l head entry) head (entry ∷ xs)
unfolding has
insert_after-IsRing l head entry xs r h = record {
  segment = insert_after-IsSegment l head entry xs r.segment r.distinct h;
  distinct = (ground (arith, r.distinct.0), (ground arith, r.distinct.1));
}

insert_before-IsSegment :
    (l : Links) (a b entry : ℕ) (xs : List ℕ)
    → IsSegment l a xs b
    → IsDistinct (a ∷ xs)
    → has b xs ≡ false
    → has entry (b ∷ a ∷ xs) ≡ false
    → IsSegment (insert_before l b entry) a (xs ++ (entry ∷ [])) b
unfolding insert_before has
insert_before-IsSegment l a b entry [] (f, g) d n h =
    (ground arith, (ground arith, (ground arith, ground arith)))
insert_before-IsSegment l a b entry (x ∷ xs) (f, (g, rest)) d n h =
    let other = apart (l.prev b) a (x ∷ xs) (has-prev l x b xs rest) d.0 in
    (
      ground (arith, other),
      (ground arith, insert_before-IsSegment l x b entry xs rest d.1 (ground arith) (ground arith)),
    )

has-append :
    (x y : ℕ) (xs : List ℕ) → has x xs ≡ false → (x == y) ≡ false → has x (xs ++ (y ∷ [])) ≡ false
unfolding has
has-append x y [] p q = ground arith
has-append x y (z ∷ xs) p q = ground (arith, has-append x y xs)

IsDistinct-append :
    (xs : List ℕ) (y : ℕ) → IsDistinct xs → has y xs ≡ false → IsDistinct (xs ++ (y ∷ []))
unfolding has
IsDistinct-append [] y d h = (refl, tt)
IsDistinct-append (x ∷ xs) y (n, d) h =
    (has-append x y xs n (ground arith), IsDistinct-append xs y d (ground arith))

has_twice : (x y : ℕ) (xs : List ℕ) → has x (y ∷ xs) ≡ false → has x (y ∷ y ∷ xs) ≡ false
unfolding has
has_twice x y xs h = ground arith

-- `ef_list_insert_before` at the head puts an entry that is neither the head nor in its list
-- behind the others.
pub insert_before-IsRing :
    (l : Links) (head entry : ℕ) (xs : List ℕ)
    → IsRing l head xs
    → has entry (head ∷ xs) ≡ false
    → IsRing (insert_before l head entry) head (xs ++ (entry ∷ []))
insert_before-IsRing l head entry xs r h = record {
  segment =
      insert_before-IsSegment l head head entry xs r.segment r.distinct r.distinct.0
        (has_twice entry head xs h);
  distinct = IsDistinct-append (head ∷ xs) entry r.distinct h;
}
