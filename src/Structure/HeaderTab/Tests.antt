-- ===== src/Structure/HeaderTab/Tests.antt =====
-- Runs of src/structure/headertab.c on small inputs.
use eframework.Base.{ℕ, ◌≡◌, refl, true, false, none, some, List, [], ◌∷◌, take, arith}
use eframework.Structure.Memory.{done}
use eframework.Structure.HashTable.{size_mask, empty_bucket, find_key}
use eframework.Structure.HeaderTab.{HeaderTab, Grants}
use eframework.Structure.HeaderTab.Twice.{Twice, headertab_add-Twice}

abbrev name : List ℕ
name = 118 ∷ 105 ∷ 97 ∷ []

abbrev no_headers : HeaderTab
no_headers = record {
  table = record {
    cap = 8;
    sizemask = size_mask 8;
    used = 0;
    next = 0;
    removed = none;
    entries = λ _. none;
    arr_data = λ _. empty_bucket;
  };
  vectors = λ _. none;
  strings = λ _. none;
}

abbrev all_granted : ℕ → Grants
all_granted ptr = record {
  str = some ptr;
  vec = 4;
  al = record { grants = λ n. true; junk = λ i. 0 };
  key_ok = true;
  data_ok = true;
}

name-absent : find_key 1 no_headers.table (take 3 name) ≡ done none
unfolding find_key
name-absent = refl

headertab_add-Twice_example :
    Twice 0 false (all_granted 5) (all_granted 6) no_headers name 3 (97 ∷ []) 1 (98 ∷ []) 1 5
headertab_add-Twice_example =
    headertab_add-Twice 0 false (all_granted 5) (all_granted 6) no_headers name 3 (97 ∷ []) 1
      (98 ∷ []) 1 5 6 refl refl refl refl refl (omega arith) (omega arith) (omega arith)
      (omega arith) (omega arith) name-absent
