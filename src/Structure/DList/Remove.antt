-- ===== src/Structure/DList/Remove.antt =====
-- Removal from a circular list.
use eframework.Base.{
  ℕ, ◌≡◌, refl, true, false, ◌||◌, Option, none, some, List, [], ◌∷◌, ◌++◌, arith, ◌==◌,
}
use eframework.Table.{update}
use eframework.Structure.DList.{Links, is_empty, remove, remove_after, remove_before}
use eframework.Structure.DList.Ring.{has, IsSegment, IsDistinct, IsRing, has-next, apart}

has-split : (x : ℕ) (xs ys : List ℕ) → has x (xs ++ ys) ≡ has x xs || has x ys
unfolding has
has-split x [] ys = refl
has-split x (z ∷ xs) ys = ground (arith, has-split x xs ys)

-- One write to each array, elsewhere.
frame_one :
    (l : Links) (a b p p' r r' : ℕ) (xs : List ℕ)
    → IsSegment l a xs b
    → has p (a ∷ xs) ≡ false
    → has r (b ∷ xs) ≡ false
    → IsSegment (record { prev = update l.prev r r'; next = update l.next p p' }) a xs b
unfolding has
frame_one l a b p p' r r' [] (f, g) hp hr = (ground arith, ground arith)
frame_one l a b p p' r r' (x ∷ xs) (f, (g, rest)) hp hr =
    (ground arith, (ground arith, frame_one l x b p p' r r' xs rest (ground arith) (ground arith)))

-- The neighbours of an entry.
around :
    (l : Links) (a b e : ℕ) (xs ys : List ℕ)
    → IsSegment l a (xs ++ (e ∷ ys)) b
    → (has (l.prev e) (a ∷ xs) ≡ true) × (has (l.next e) (b ∷ ys) ≡ true)
unfolding has
around l a b e [] ys (f, (g, rest)) = (ground arith, has-next l e b ys rest)
around l a b e (x ∷ xs) ys (f, (g, rest)) =
    let (before, behind) = around l x b e xs ys rest in (ground (arith, before), behind)

has_same : (x y : ℕ) (l : List ℕ) → x ≡ y → has y l ≡ false → has x l ≡ false
has_same x y l e h = rw e h

remove-first :
    (l : Links) (a b e : ℕ) (ys : List ℕ)
    → IsSegment l a (e ∷ ys) b
    → IsDistinct (a ∷ e ∷ ys)
    → has b (e ∷ ys) ≡ false
    → IsSegment (remove l e) a ys b
unfolding remove has
remove-first l a b e [] (f, (g, (f', g'))) d n = (ground arith, ground arith)
remove-first l a b e (y ∷ ys) (f, (g, (f', (g', rest)))) d n =
    let before = update l.prev (l.next e) (l.prev e) e in
    let same : before ≡ a = ground arith in
    (
      ground arith,
      (
        ground arith,
        frame_one l y b before (l.next e) (l.next e) (l.prev e) ys rest
            (has_same before a (y ∷ ys) same (ground (arith, d.0)))
            (has_same (l.next e) y (b ∷ ys) f' (ground (arith, d.1.1.0, n))),
      ),
    )

has_tail : (x y : ℕ) (l : List ℕ) → has x (y ∷ l) ≡ false → has x l ≡ false
unfolding has
has_tail x y l h = ground arith

-- The write to `next` is behind `a`, and the one to `prev` is beyond `x`.
remove-next :
    (l : Links) (a x e : ℕ) (xs ys : List ℕ)
    → has (l.prev e) (x ∷ xs) ≡ true
    → l.next a ≡ x
    → has a (x ∷ (xs ++ (e ∷ ys))) ≡ false
    → (remove l e).next a ≡ x
unfolding remove has
remove-next l a x e xs ys before f n =
    let other = apart (l.prev e) a (x ∷ xs) before (ground (arith, n, has-split a xs (e ∷ ys))) in
    ground (arith, other)

remove-prev :
    (l : Links) (a x b e : ℕ) (xs ys : List ℕ)
    → has (l.next e) (b ∷ ys) ≡ true
    → l.prev x ≡ a
    → has x (xs ++ (e ∷ ys)) ≡ false
    → has b (x ∷ (xs ++ (e ∷ ys))) ≡ false
    → (remove l e).prev x ≡ a
unfolding remove has
remove-prev l a x b e xs ys behind g n out =
    let other =
      apart (l.next e) x (b ∷ ys) behind (ground (arith, n, out, has-split x xs (e ∷ ys))) in
    ground (arith, other)

IsDistinct-remove :
    (xs : List ℕ) (e : ℕ) (ys : List ℕ) → IsDistinct (xs ++ (e ∷ ys)) → IsDistinct (xs ++ ys)
unfolding has
IsDistinct-remove [] e ys (n, d) = d
IsDistinct-remove (x ∷ xs) e ys (n, d) =
    (ground (arith, n, has-split x xs (e ∷ ys), has-split x xs ys), IsDistinct-remove xs e ys d)

remove-IsSegment :
    (l : Links) (a b e : ℕ) (xs ys : List ℕ)
    → IsSegment l a (xs ++ (e ∷ ys)) b
    → IsDistinct (a ∷ (xs ++ (e ∷ ys)))
    → has b (xs ++ (e ∷ ys)) ≡ false
    → IsSegment (remove l e) a (xs ++ ys) b
remove-IsSegment l a b e [] ys s d n = remove-first l a b e ys s d n
remove-IsSegment l a b e (x ∷ xs) ys (f, (g, rest)) d n =
    let kept = remove-IsSegment l x b e xs ys rest d.1 (has_tail b x (xs ++ (e ∷ ys)) n) in
    let (before, behind) = around l x b e xs ys rest in
    (remove-next l a x e xs ys before f d.0, (remove-prev l a x b e xs ys behind g d.1.0 n, kept))

-- `ef_list_remove` of an entry takes exactly this entry out of the list of the head and keeps the
-- order of the others.
pub remove-IsRing :
    (l : Links) (head e : ℕ) (xs ys : List ℕ)
    → IsRing l head (xs ++ (e ∷ ys))
    → IsRing (remove l e) head (xs ++ ys)
remove-IsRing l head e xs ys r = record {
  segment = remove-IsSegment l head head e xs ys r.segment r.distinct r.distinct.0;
  distinct = IsDistinct-remove (head ∷ xs) e ys r.distinct;
}

-- Taking the entry behind the head is a removal, and so is taking the one before it.
remove_after-remove :
    (l : Links) (head x : ℕ)
    → is_empty l head ≡ false
    → l.next head ≡ x
    → l.prev x ≡ head
    → remove_after l head ≡ (some x, remove l x)
unfolding remove_after remove
remove_after-remove l head x some_entry f g =
    let before : update l.prev (l.next x) (l.prev x) x ≡ head = ground arith in
    let here : (head == head) ≡ true = ground arith in rw (some_entry, before, f, here, g) refl

remove_before-remove :
    (l : Links) (head x : ℕ)
    → is_empty l head ≡ false
    → l.prev head ≡ x
    → l.next x ≡ head
    → remove_before l head ≡ (some x, remove l x)
unfolding remove_before remove
remove_before-remove l head x some_entry f g =
    let before : update l.prev (l.next x) (l.prev x) x ≡ l.prev x = ground arith in
    let here : (head == head) ≡ true = ground arith in rw (some_entry, before, f, here, g) refl

not_empty :
    (l : Links) (head x : ℕ) (xs : List ℕ) → IsRing l head (x ∷ xs) → is_empty l head ≡ false
unfolding is_empty has
not_empty l head x xs r = ground (arith, r.segment.0, r.distinct.0)

-- What `ef_list_remove_after` gives for the entries `xs`.
pub record First (l : Links) (head : ℕ) (xs : List ℕ) : Type 0 where
  pub entry : Option ℕ
  pub others : List ℕ
  pub result : Links
  pub runs : remove_after l head ≡ (entry, result)
  pub ring : IsRing result head others
  pub split : xs ≡ elim entry [ none ↦ others | some x ↦ x ∷ others ]

-- `ef_list_remove_after` at the head gives NULL and changes nothing if there is no entry;
-- otherwise it gives the first entry, and the head's list is the others in their order.
pub remove_after-First : (l : Links) (head : ℕ) (xs : List ℕ) → IsRing l head xs → First l head xs
unfolding remove_after is_empty
remove_after-First l head [] r = record {
  entry = none;
  others = [];
  result = l;
  runs = ground (arith, r.segment.0);
  ring = r;
  split = refl;
}
remove_after-First l head (x ∷ xs) r = record {
  entry = some x;
  others = xs;
  result = remove l x;
  runs = remove_after-remove l head x (not_empty l head x xs r) r.segment.0 r.segment.1.0;
  ring = remove-IsRing l head x [] xs r;
  split = refl;
}

-- The last entry.
last_links :
    (l : Links) (a b x : ℕ) (xs : List ℕ)
    → IsSegment l a (xs ++ (x ∷ [])) b
    → (l.prev b ≡ x) × (l.next x ≡ b)
last_links l a b x [] (f, (g, (f', g'))) = (g', f')
last_links l a b x (y ∷ xs) (f, (g, rest)) = last_links l y b x xs rest

not_empty_append :
    (l : Links) (head x : ℕ) (xs : List ℕ)
    → IsRing l head (xs ++ (x ∷ []))
    → is_empty l head ≡ false
not_empty_append l head x [] r = not_empty l head x [] r
not_empty_append l head x (y ∷ xs) r = not_empty l head y (xs ++ (x ∷ [])) r

-- `ef_list_remove_before` at the head of a list that ends with an entry gives this entry and does
-- what `ef_list_remove` of it does, which leaves the others.
pub remove_before-IsRing :
    (l : Links) (head x : ℕ) (xs : List ℕ)
    → IsRing l head (xs ++ (x ∷ []))
    → (remove_before l head ≡ (some x, remove l x)) × IsRing (remove l x) head (xs ++ [])
remove_before-IsRing l head x xs r =
    let (before, behind) = last_links l head head x xs r.segment in
    (
      remove_before-remove l head x (not_empty_append l head x xs r) before behind,
      remove-IsRing l head x xs [] r,
    )
