-- ===== src/Basic/Lower.antt =====
-- strtolower on a block.
use eframework.Base.{ℕ, zero, suc, ◌≤◌, ◌≡◌, refl, ap, List, [], ◌∷◌, drop, length, arith}
use eframework.Structure.Memory.{done}
use eframework.Basic.{lower_char, strtolower}

lower_char_twice : (c : ℕ) → lower_char (lower_char c) ≡ lower_char c
unfolding lower_char
lower_char_twice c = ground arith

-- The block after `strtolower` of its first `len` bytes.
pub record Lowered (s : List ℕ) (len : ℕ) : Type 0 where
  pub result : List ℕ
  pub runs : strtolower s len ≡ done result
  pub again : strtolower result len ≡ done result
  pub behind : drop len result ≡ drop len s
  pub size : length result ≡ length s

-- `strtolower` of bytes that are in the block ends, keeps the size of the block and the bytes
-- behind those that it is asked for, and changes nothing when it is called again.
pub strtolower-Lowered : (s : List ℕ) (len : ℕ) → len ≤ length s → Lowered s len
unfolding strtolower
strtolower-Lowered s zero h = record {
  result = s;
  runs = refl;
  again = refl;
  behind = refl;
  size = refl;
}
strtolower-Lowered [] (suc len) h = absurd (omega arith)
strtolower-Lowered (c ∷ s) (suc len) h =
    let rest = strtolower-Lowered s len (omega arith) in
    record {
      result = lower_char c ∷ rest.result;
      runs = rw rest.runs refl;
      again = rw (rest.again, lower_char_twice c) refl;
      behind = rest.behind;
      size = ap suc rest.size;
    }
