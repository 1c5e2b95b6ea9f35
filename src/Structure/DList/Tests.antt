-- ===== src/Structure/DList/Tests.antt =====
-- Runs of src/structure/list.h on small inputs.
use eframework.Base.{◌≡◌, refl, false, some, [], ◌∷◌, ◌++◌, ◌==◌, if◌then◌else◌}
use eframework.Structure.DList.{Links, insert_after, insert_before, remove, remove_before}
use eframework.Structure.DList.Ring.{has, IsRing}
use eframework.Structure.DList.Insert.{insert_after-IsRing, insert_before-IsRing}
use eframework.Structure.DList.Remove.{
  First, remove-IsRing, remove_after-First, remove_before-IsRing,
}

-- The head at 0 and the entries 1, 2, 3.
abbrev three : Links
three = record {
  prev = λ x. if x == 0 then 3 else if x == 1 then 0 else if x == 2 then 1 else 2;
  next = λ x. if x == 0 then 1 else if x == 1 then 2 else if x == 2 then 3 else 0;
}

three-IsRing : IsRing three 0 (1 ∷ 2 ∷ 3 ∷ [])
unfolding has
three-IsRing = record {
  segment = (refl, (refl, (refl, (refl, (refl, (refl, (refl, refl)))))));
  distinct = (refl, (refl, (refl, (refl, tt))));
}

four_is_new : has 4 (0 ∷ 1 ∷ 2 ∷ 3 ∷ []) ≡ false
unfolding has
four_is_new = refl

insert_after-IsRing_run : IsRing (insert_after three 0 4) 0 (4 ∷ 1 ∷ 2 ∷ 3 ∷ [])
insert_after-IsRing_run = insert_after-IsRing three 0 4 (1 ∷ 2 ∷ 3 ∷ []) three-IsRing four_is_new

insert_before-IsRing_run : IsRing (insert_before three 0 4) 0 ((1 ∷ 2 ∷ 3 ∷ []) ++ (4 ∷ []))
insert_before-IsRing_run = insert_before-IsRing three 0 4 (1 ∷ 2 ∷ 3 ∷ []) three-IsRing four_is_new

remove-IsRing_run : IsRing (remove three 2) 0 ((1 ∷ []) ++ (3 ∷ []))
remove-IsRing_run = remove-IsRing three 0 2 (1 ∷ []) (3 ∷ []) three-IsRing

remove_after-First_run : First three 0 (1 ∷ 2 ∷ 3 ∷ [])
remove_after-First_run = remove_after-First three 0 (1 ∷ 2 ∷ 3 ∷ []) three-IsRing

remove_before-IsRing_run :
    (remove_before three 0 ≡ (some 3, remove three 3))
    × IsRing (remove three 3) 0 ((1 ∷ 2 ∷ []) ++ [])
remove_before-IsRing_run = remove_before-IsRing three 0 3 (1 ∷ 2 ∷ []) three-IsRing
