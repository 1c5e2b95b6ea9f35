-- ===== src/Structure/HashTable/Tests.antt =====
-- Runs of src/structure/hashtable.c on small inputs.
use eframework.Base.{
  ℕ, ◌%◌, ◌^◌, ◌≤◌, ◌<◌, ◌≡◌, refl, true, none, List, [], ◌∷◌, take, arith, bit_or, size_mod,
}
use eframework.Structure.Memory.{done}
use eframework.Structure.HashTable.{HashTable, slot, hash_func, find_key, size_mask, empty_bucket}
use eframework.Structure.HashTable.Hash.{times_33, hash_func_lem}
use eframework.Structure.HashTable.Slot.{slot_lem}
use eframework.Structure.HashTable.Lookup.{Inserted, set_key_value-Inserted}

abbrev empty_table : HashTable
empty_table = record {
  cap = 8;
  sizemask = size_mask 8;
  used = 0;
  next = 0;
  removed = none;
  entries = λ _. none;
  arr_data = λ _. empty_bucket;
}

abbrev host : List ℕ
host = 104 ∷ 111 ∷ 115 ∷ 116 ∷ 0 ∷ []

host-absent : find_key 8 empty_table (take 4 host) ≡ done none
unfolding find_key
host-absent = refl

set_key_value-Inserted_example : Inserted 7 true empty_table host 4 80
set_key_value-Inserted_example =
    set_key_value-Inserted 7 true empty_table host 4 80 (omega arith) (omega arith) host-absent

hash_func_lem_example :
    (hash_func host ≡ bit_or (times_33 5381 host) (2 ^ 63))
    × ((2 ^ 63 ≤ hash_func host) × (hash_func host < size_mod))
hash_func_lem_example = hash_func_lem host

slot_lem_run : slot empty_table 100 ≡ 100 % 2 ^ 3
slot_lem_run = slot_lem 3 100 empty_table (omega arith) refl refl
