-- ===== src/Structure/StringTab.antt =====
-- src/structure/stringtab.c: a hash table whose values are strings. A value is a pointer, where NULL is 0, and
-- the strings are found by their pointers.
pub mod Stored
mod Tests
use eframework.Base.{ℕ, Bool, Option, none, some, List, take, ◌==◌, if◌then◌else◌}
use eframework.Structure.Memory.{Outcome, done, fault, unfinished}
use eframework.Table.{update}
use eframework.Structure.HashTable.{HashTable, find_key}
use eframework.Structure.HashTable.Update.{stored_key, set_key_value}

-- `ef_stringtab_t`, and the strings that are not freed.
pub record StringTab : Type 0 where
  pub table : HashTable
  pub strings : ℕ → Option (List ℕ)

-- `str_dtor` of a string that is not NULL.
unfoldable pub str_dtor : StringTab → (ptr : ℕ) → StringTab
str_dtor tb ptr = record tb { strings = update tb.strings ptr none }

-- The value of a bucket that is found, NULL if none is.
unfoldable pub value_at : HashTable → Outcome (Option ℕ) → Outcome ℕ
value_at table fault = fault
value_at table unfinished = unfinished
value_at table (done none) = done 0
value_at table (done (some i)) = done (table.arr_data i).val

-- `ef_stringtab_find`.
unfoldable pub find : (rounds : ℕ) → StringTab → (key : List ℕ) → (len : ℕ) → Outcome ℕ
find rounds tb key len = value_at tb.table (find_key rounds tb.table (take len key))

-- What `ef_hashtable_set_key_value` does to the value that it replaces.
unfoldable pub replaced : StringTab → Outcome (Option ℕ) → StringTab
replaced tb fault = tb
replaced tb unfinished = tb
replaced tb (done none) = tb
replaced tb (done (some i)) =
    let ptr = (tb.table.arr_data i).val in if ptr == 0 then tb else str_dtor tb ptr

-- The end of `ef_stringtab_set`: the string is returned, or freed if there is no bucket for it, where
-- `ef_string_free` of NULL is a wrong access. `tb` has the table from before.
unfoldable pub keep_string :
    StringTab
    → (found : Outcome (Option ℕ)) → (str : ℕ) → Outcome (Option ℕ × HashTable)
    → Outcome (ℕ × StringTab)
keep_string tb found str fault = fault
keep_string tb found str unfinished = unfinished
keep_string tb found str (done (none, table)) =
    if str == 0 then fault else done (0, str_dtor (record tb { table = table }) str)
keep_string tb found str (done (some i, table)) =
    done ((table.arr_data i).val, record (replaced tb found) { table = table })

unfoldable pub set_string :
    (rounds : ℕ)
    → (key_ok data_ok : Bool) → StringTab
    → (key : List ℕ) → (klen : ℕ) → (str : ℕ) → Outcome (ℕ × StringTab)
set_string rounds key_ok data_ok tb key klen str =
    keep_string tb (find_key rounds tb.table (take klen key)) str
      (set_key_value rounds key_ok data_ok tb.table key klen str)

-- `ef_stringtab_set`; `granted` is the pointer that `ef_string_new` returns, and a `val` of `none` is NULL.
unfoldable pub set :
    (rounds : ℕ)
    → (granted : Option ℕ) → (key_ok data_ok : Bool) → StringTab
    → (key : List ℕ) → (klen : ℕ) → (val : Option (List ℕ)) → (vlen : ℕ) → Outcome (ℕ × StringTab)
set rounds granted key_ok data_ok tb key klen none vlen =
    set_string rounds key_ok data_ok tb key klen 0
set rounds none key_ok data_ok tb key klen (some val) vlen = done (0, tb)
set rounds (some str) key_ok data_ok tb key klen (some val) vlen = elim (stored_key val vlen) [
  | none ↦ fault
  | some text ↦
      set_string rounds key_ok data_ok (record tb { strings = update tb.strings str (some text) })
        key klen str
]
