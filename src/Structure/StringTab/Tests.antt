-- ===== src/Structure/StringTab/Tests.antt =====
-- Runs of src/structure/stringtab.c on small inputs.
use eframework.Base.{
  ℕ, ◌≡◌, refl, true, none, some, List, [], ◌∷◌, take, arith, ◌==◌, if◌then◌else◌,
}
use eframework.Structure.Memory.{done}
use eframework.Structure.HashTable.{
  size_mask, hash_func, unrolled, fall_through, hash_step, same_bytes, find_key, walk, is_match,
}
use eframework.Structure.StringTab.{StringTab}
use eframework.Structure.StringTab.Stored.{Replaced, stringtab_set-Replaced}

abbrev host : List ℕ
host = 104 ∷ 111 ∷ 115 ∷ 116 ∷ []

-- The one bucket of the table is that of the key, with the string at 5.
abbrev one_key : StringTab
one_key = record {
  table = record {
    cap = 8;
    sizemask = size_mask 8;
    used = 1;
    next = 1;
    removed = none;
    entries = λ _. some 0;
    arr_data = λ _. record { h = hash_func host; key = some host; val = 5; next = none };
  };
  strings = λ ptr. if ptr == 5 then some (97 ∷ []) else none;
}

host-there : find_key 1 one_key.table (take 4 host) ≡ done (some 0)
unfolding find_key walk is_match hash_func unrolled fall_through hash_step same_bytes
host-there = refl

stringtab_set-Replaced_example : Replaced 1 (some 6) true true one_key host 4 (98 ∷ 99 ∷ []) 2 6 0
stringtab_set-Replaced_example =
    stringtab_set-Replaced 1 true true one_key host 4 (98 ∷ 99 ∷ []) 2 6 0 (omega arith)
      (λ e. omega (arith, e)) host-there
