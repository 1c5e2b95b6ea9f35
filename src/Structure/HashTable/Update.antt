-- ===== src/Structure/HashTable/Update.antt =====
-- Setting and removing keys in src/structure/hashtable.c.
use eframework.Base.{
  ℕ, zero, suc, ◌+◌, ◌-◌, ◌*◌, ◌%◌, Bool, true, false, ◌&&◌, Option, none, some, List, take, ltb,
  ◌==◌, if◌then◌else◌, u32_mod,
}
use eframework.Structure.Memory.{Outcome, done, fault, unfinished, strlen}
use eframework.Table.{update}
use eframework.Structure.HashTable.{HashTable, hash_func, slot, is_match, find_key, link, resize}

-- `alloc_bucket:` of `ef_hashtable_set_key_value`, with the number of times that it may be reached.
unfoldable pub alloc_bucket :
    (rounds : ℕ) → (data_ok : Bool) → HashTable → Outcome (Option ℕ × HashTable)
alloc_bucket zero data_ok ht = unfinished
alloc_bucket (suc rounds) data_ok ht =
    let grown = resize data_ok ht (ht.cap * 2 % u32_mod) in
    let again = alloc_bucket rounds data_ok grown.1 in
    if ltb ht.next ht.cap
    then done (some ht.next, record ht { next = ht.next + 1 })
    else elim ht.removed [
      | some r ↦ done (some r, record ht { removed = (ht.arr_data r).next })
      | none ↦ if grown.0 then again else done (none, ht)
    ]

-- What `ef_string_new` copies: a length of 0 stands for the length of a C string.
unfoldable pub stored_key : (str : List ℕ) → (klen : ℕ) → Option (List ℕ)
stored_key str klen =
    if klen == 0
    then elim (strlen str) [ none ↦ none | some n ↦ some (take n str) ]
    else some (take klen str)

-- The new bucket is filled, or given back if its key cannot be copied.
unfoldable pub fill_bucket :
    (key_ok : Bool) → HashTable → (index h : ℕ) → (key : List ℕ) → (val : ℕ) → Option ℕ × HashTable
fill_bucket key_ok ht index h key val =
    if key_ok
    then (
      some index,
      link
          (record ht {
            used = ht.used + 1;
            arr_data =
                update ht.arr_data index
                  (record (ht.arr_data index) { key = some key; h = h; val = val });
          })
          index,
    )
    else (
      none,
      record ht {
        arr_data =
            update ht.arr_data index (record (ht.arr_data index) { key = none; next = ht.removed });
        removed = some index;
      },
    )

-- `ef_hashtable_set_key_value`: the bucket's index, and the table.
unfoldable pub set_key_value :
    (rounds : ℕ)
    → (key_ok data_ok : Bool) → HashTable
    → (str : List ℕ) → (klen val : ℕ) → Outcome (Option ℕ × HashTable)
set_key_value rounds key_ok data_ok ht str klen val = elim (find_key rounds ht (take klen str)) [
  | fault ↦ fault
  | unfinished ↦ unfinished
  | done found ↦ elim found [
    | some i ↦ done (
      some i,
      record ht { arr_data = update ht.arr_data i (record (ht.arr_data i) { val = val }) },
    )
    | none ↦ elim (alloc_bucket rounds data_ok ht) [
      | fault ↦ fault
      | unfinished ↦ unfinished
      | done out ↦ elim out.0 [
        | none ↦ done (none, out.1)
        | some i ↦ elim (stored_key str klen) [
          | none ↦ fault
          | some key ↦ done (fill_bucket key_ok out.1 i (hash_func (take klen str)) key val)
        ]
      ]
    ]
  ]
]

-- `ef_hashtable_free_bucket`; `has_dtor` says whether there is a destructor for the values.
unfoldable pub free_bucket : (has_dtor : Bool) → HashTable → ℕ → HashTable
free_bucket has_dtor ht index =
    let pb = ht.arr_data index in
    let is_free = (pb.h == 0) && elim pb.key [ none ↦ true | some _ ↦ false ] in
    if is_free then ht else record ht {
      arr_data =
          update ht.arr_data index
            (record { h = 0; key = none; val = if has_dtor then 0 else pb.val; next = ht.removed });
      removed = some index;
      used = ht.used - 1;
    }

-- `*pidx = next`: the entry of the chain, or the bucket before.
unfoldable pub unlink :
    HashTable → (offset : ℕ) → (before : Option ℕ) → (next : Option ℕ) → HashTable
unlink ht offset none next = record ht { entries = update ht.entries offset next }
unlink ht offset (some i) next = record ht {
  arr_data = update ht.arr_data i (record (ht.arr_data i) { next = next });
}

-- The walk of `ef_hashtable_remove_key`.
unfoldable pub remove_walk :
    (rounds : ℕ)
    → (has_dtor : Bool) → HashTable
    → (h : ℕ) → List ℕ
    → (before : Option ℕ) → (index : ℕ) → Outcome HashTable
remove_walk zero has_dtor ht h key before index = unfinished
remove_walk (suc rounds) has_dtor ht h key before index =
    elim (is_match (ht.arr_data index) h key) [
      | true ↦
          done (free_bucket has_dtor (unlink ht (slot ht h) before (ht.arr_data index).next) index)
      | false ↦ elim (ht.arr_data index).next [
        | none ↦ done ht
        | some i ↦ remove_walk rounds has_dtor ht h key (some index) i
      ]
    ]

-- `ef_hashtable_remove_key`, which always returns 0.
unfoldable pub remove_key :
    (rounds : ℕ) → (has_dtor : Bool) → HashTable → List ℕ → Outcome HashTable
remove_key rounds has_dtor ht key =
    let h = hash_func key in
    elim (ht.entries (slot ht h)) [
      | none ↦ done ht
      | some index ↦ remove_walk rounds has_dtor ht h key none index
    ]
