-- ===== src/Structure/HeaderTab.antt =====
-- src/structure/headertab.c: a hash table whose values are vectors of strings. A value is a pointer, where NULL
-- is 0; the vectors and the strings are found by their pointers.
pub mod Twice
mod Tests
use eframework.Base.{
  ℕ, Bool, true, false, Option, none, some, List, [], ◌∷◌, take, drop, ◌==◌, if◌then◌else◌,
}
use eframework.Structure.Memory.{Outcome, done, fault, unfinished, Allocator, block_of}
use eframework.Structure.Vector
use eframework.Structure.Vector.{Vector, append, free}
use eframework.Table.{update}
use eframework.Structure.HashTable.{HashTable, find_key}
use eframework.Structure.HashTable.Update.{stored_key, set_key_value}
use eframework.Structure.StringTab.{value_at}

-- `ef_headertab_t`, and the vectors and the strings that are not freed.
pub record HeaderTab : Type 0 where
  pub table : HashTable
  pub vectors : ℕ → Option Vector
  pub strings : ℕ → Option (List ℕ)

-- What the allocator and the hash table are granted: the addresses of a string and of a vector, the vector's
-- memory, the copy of the key, and a larger table.
pub record Grants : Type 0 where
  pub str : Option ℕ
  pub vec : ℕ
  pub al : Allocator
  pub key_ok : Bool
  pub data_ok : Bool

-- `ef_headertab_find`.
unfoldable pub find : (rounds : ℕ) → HeaderTab → (key : List ℕ) → (len : ℕ) → Outcome ℕ
find rounds tb key len = value_at tb.table (find_key rounds tb.table (take len key))

-- `str_dtor` of each string that a vector gives up.
unfoldable pub free_strings : List ℕ → (ℕ → Option (List ℕ)) → ℕ → Option (List ℕ)
free_strings [] strings = strings
free_strings (s ∷ rest) strings = free_strings rest (update strings s none)

-- `vec->ptr[idx]`.
unfoldable pub element : Vector → (idx : ℕ) → Outcome ℕ
element vec idx = elim (drop idx (block_of vec.ptr)) [ [] ↦ fault | s ∷ _ ↦ done s ]

-- The result, once the string is in its vector.
unfoldable pub with_element : Vector → (idx : ℕ) → HeaderTab → Outcome (ℕ × HeaderTab)
with_element vec idx tb = elim (element vec idx) [
  | fault ↦ fault
  | unfinished ↦ unfinished
  | done s ↦ done (s, tb)
]

-- `ef_vector_append` to the vector of a key that is there; -1 leaves the string without an owner.
unfoldable pub append_to :
    (at : ℕ) → HeaderTab → Outcome (Option ℕ × Vector) → Outcome (ℕ × HeaderTab)
append_to at tb fault = fault
append_to at tb unfinished = unfinished
append_to at tb (done (none, vec)) =
    done (0, record tb { vectors = update tb.vectors at (some vec) })
append_to at tb (done (some idx, vec)) =
    with_element vec idx (record tb { vectors = update tb.vectors at (some vec) })

-- `ef_vector_free` of the vector of a key that is there, with `destroy` 0.
unfoldable pub emptied : HeaderTab → (at : ℕ) → Vector → HeaderTab
emptied tb at vec = record tb {
  vectors = update tb.vectors at (some (free true vec).1);
  strings = free_strings (free true vec).0 tb.strings;
}

-- `ef_vector_free` of a new vector, with `destroy` 1.
unfoldable pub destroy : HeaderTab → Vector → HeaderTab
destroy tb vec = record tb { strings = free_strings (free true vec).0 tb.strings }

-- `ef_hashtable_set_key_value` of the new vector, or its end.
unfoldable pub keep_vector :
    HeaderTab
    → (at : ℕ) → Vector
    → (idx : ℕ) → Outcome (Option ℕ × HashTable)
    → Outcome (ℕ × HeaderTab)
keep_vector tb at vec idx fault = fault
keep_vector tb at vec idx unfinished = unfinished
keep_vector tb at vec idx (done (none, table)) = done (0, destroy (record tb { table = table }) vec)
keep_vector tb at vec idx (done (some i, table)) =
    with_element vec idx (record tb { table = table; vectors = update tb.vectors at (some vec) })

-- A key that is not there gets a vector of one string.
unfoldable pub first_string :
    (rounds : ℕ)
    → Grants
    → HeaderTab
    → (key : List ℕ) → (klen : ℕ) → Outcome (Option ℕ × Vector)
    → Outcome (ℕ × HeaderTab)
first_string rounds g tb key klen fault = fault
first_string rounds g tb key klen unfinished = unfinished
first_string rounds g tb key klen (done (none, vec)) = done (0, destroy tb vec)
first_string rounds g tb key klen (done (some idx, vec)) =
    keep_vector tb g.vec vec idx (set_key_value rounds g.key_ok g.data_ok tb.table key klen g.vec)

unfoldable pub new_vector :
    (rounds : ℕ)
    → Grants
    → HeaderTab
    → (key : List ℕ) → (klen : ℕ) → (str : ℕ) → Outcome (ℕ × HeaderTab)
new_vector rounds g tb key klen str = elim (Vector.new g.al g.al 0) [
  | none ↦ done (0, tb)
  | some vec ↦ first_string rounds g tb key klen (append g.al vec str)
]

-- The string goes into the vector that is found, `set` first empties it, or into a new one.
unfoldable pub put :
    (is_set : Bool)
    → (rounds : ℕ) → Grants
    → HeaderTab
    → (key : List ℕ) → (klen : ℕ) → (str : ℕ) → Outcome ℕ
    → Outcome (ℕ × HeaderTab)
put is_set rounds g tb key klen str fault = fault
put is_set rounds g tb key klen str unfinished = unfinished
put is_set rounds g tb key klen str (done at) =
    if at == 0 then new_vector rounds g tb key klen str else elim (tb.vectors at) [
      | none ↦ fault
      | some vec ↦
          if is_set
          then append_to at (emptied tb at vec) (append g.al (free true vec).1 str)
          else append_to at tb (append g.al vec str)
    ]

-- `ef_headertab_set` and `ef_headertab_add`.
unfoldable pub set_or_add :
    (is_set : Bool)
    → (rounds : ℕ) → Grants
    → HeaderTab
    → (key : List ℕ) → (klen : ℕ) → (val : List ℕ) → (vlen : ℕ) → Outcome (ℕ × HeaderTab)
set_or_add is_set rounds g tb key klen val vlen = elim g.str [
  | none ↦ done (0, tb)
  | some str ↦ elim (stored_key val vlen) [
    | none ↦ fault
    | some text ↦
        put is_set rounds g (record tb { strings = update tb.strings str (some text) }) key klen str
          (find rounds tb key klen)
  ]
]

unfoldable pub set :
    (rounds : ℕ)
    → Grants
    → HeaderTab
    → (key : List ℕ) → (klen : ℕ) → (val : List ℕ) → (vlen : ℕ) → Outcome (ℕ × HeaderTab)
set = set_or_add true

unfoldable pub add :
    (rounds : ℕ)
    → Grants
    → HeaderTab
    → (key : List ℕ) → (klen : ℕ) → (val : List ℕ) → (vlen : ℕ) → Outcome (ℕ × HeaderTab)
add = set_or_add false
