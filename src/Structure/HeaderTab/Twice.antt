-- ===== src/Structure/HeaderTab/Twice.antt =====
-- Two values for one key of a table of headers.
use eframework.Base.{
  ℕ, zero, suc, ◌≤◌, ◌<◌, ◌≡◌, refl, ap, Bool, true, false, none, some, List, [], ◌∷◌, take, arith,
  ◌==◌,
}
use eframework.Structure.Memory.{done, fault, block_of}
use eframework.Structure.Vector
use eframework.Structure.Vector.{Vector, contents, append, free}
use eframework.Structure.Vector.Append.{append_twice_fault}
use eframework.Table.{update}
use eframework.Structure.HashTable.{find_key}
use eframework.Structure.HashTable.Update.{stored_key}
use eframework.Structure.HashTable.Lookup.{Inserted, set_key_value-Inserted}
use eframework.Structure.StringTab.{value_at}
use eframework.Structure.HeaderTab.{
  HeaderTab, Grants, find, element, with_element, append_to, keep_vector, first_string, new_vector,
  put, set_or_add,
}

same_number : (n : ℕ) → (n == n) ≡ true
same_number n = ground arith

first_of : (n : ℕ) (b : List ℕ) (x : ℕ) → take n b ≡ x ∷ [] → (rest : List ℕ) × (b ≡ x ∷ rest)
first_of zero b x e = absurd (ground (arith, e))
first_of (suc n) [] x e = absurd (ground (arith, e))
first_of (suc n) (y ∷ b) x e = (b, ground (arith, e))

element_first : (vec : Vector) (x : ℕ) → contents vec ≡ x ∷ [] → element vec 0 ≡ done x
unfolding element
element_first vec x e =
    let (rest, b) = first_of vec.len (block_of vec.ptr) x e in rw (b, element) refl

-- A key that is not there gets a vector with the string.
new_vector_lem :
    (rounds : ℕ) (g : Grants) (tb : HeaderTab) (key : List ℕ) (klen str : ℕ) (vec : Vector)
    → g.al.grants 32 ≡ true
    → g.key_ok ≡ true
    → append g.al (record { ptr = none; cap = 0; len = 0 }) str ≡ done (some 0, vec)
    → contents vec ≡ str ∷ []
    → (ins : Inserted rounds g.data_ok tb.table key klen g.vec)
    → new_vector (suc rounds) g tb key klen str
      ≡ done (str, record tb { table = ins.result; vectors = update tb.vectors g.vec (some vec) })
unfolding new_vector first_string keep_vector with_element Vector.new
new_vector_lem rounds g tb key klen str vec g32 copied appended holds ins =
    rw (g32, new_vector)
      (rw appended (
        rw (copied, first_string)
          (rw ins.runs (rw (element_first vec str holds, with_element) refl))))

-- What setting a key twice gives.
pub record Twice (rounds : ℕ) (is_set : Bool) (g g' : Grants) (tb : HeaderTab) (key : List ℕ)
    (klen : ℕ) (val : List ℕ) (vlen : ℕ) (val' : List ℕ) (vlen' str : ℕ) : Type 0 where
  pub result : HeaderTab
  pub runs : set_or_add is_set (suc rounds) g tb key klen val vlen ≡ done (str, result)
  pub found : find (suc rounds) result key klen ≡ done g.vec
  pub holds : result.strings str ≡ some (take vlen val)
  pub again : set_or_add false (suc rounds) g' result key klen val' vlen' ≡ fault

-- `ef_headertab_set` or `ef_headertab_add` of a key that is not empty and not in the table, while
-- a bucket has never been used and all is granted, with a value that is not empty: it returns the
-- string, which holds the value, and the key is then found with its vector. A call of
-- `ef_headertab_add` with the same key and another value that is not empty, if its string can be
-- made, then writes outside of the vector's block.
pub headertab_add-Twice :
    (rounds : ℕ) (is_set : Bool) (g g' : Grants) (tb : HeaderTab) (key : List ℕ) (klen : ℕ)
    (val : List ℕ) (vlen : ℕ) (val' : List ℕ) (vlen' str str' : ℕ)
    → g.str ≡ some str
    → g'.str ≡ some str'
    → g.al.grants 32 ≡ true
    → g.al.grants 8 ≡ true
    → g.key_ok ≡ true
    → 1 ≤ g.vec
    → 1 ≤ klen
    → 1 ≤ vlen
    → 1 ≤ vlen'
    → tb.table.next < tb.table.cap
    → find_key (suc rounds) tb.table (take klen key) ≡ done none
    → Twice rounds is_set g g' tb key klen val vlen val' vlen' str
unfolding set_or_add stored_key put find value_at append_to
headertab_add-Twice rounds is_set g g' tb key klen val vlen val' vlen' str str' s s' g32 g8 copied
      some_vec some_key some_val some_val' room absent =
    let (vec, appended, holds, cap, faulted) = append_twice_fault g.al g'.al str str' g8 in
    let ins =
      set_key_value-Inserted rounds g.data_ok tb.table key klen g.vec some_key room absent in
    let made : HeaderTab = record tb { strings = update tb.strings str (some (take vlen val)) } in
    let given : (vlen == 0) ≡ false = ground arith in
    let given' : (vlen' == 0) ≡ false = ground arith in
    let there : (g.vec == 0) ≡ false = ground arith in
    record {
      result = record made { table = ins.result; vectors = update tb.vectors g.vec (some vec) };
      runs =
          rw (s, given, set_or_add)
            (rw absent
              (new_vector_lem rounds g made key klen str vec g32 copied appended holds ins));
      found = rw ins.found (ap done ins.holds);
      holds = rw (same_number str) refl;
      again =
          rw (s', given', set_or_add)
            (rw ins.found (rw ins.holds rw there (rw (same_number g.vec) (rw faulted refl))));
    }
