-- ===== src/FastCgi/Response/Records.antt =====
-- The records of the FastCGI protocol, as the other side reads them.
use eframework.Base.{
  ℕ, zero, suc, ◌+◌, ◌-◌, ◌*◌, ◌/◌, ◌%◌, ◌≤◌, ◌<◌, true, Option, none, some, List, [], ◌∷◌, ◌++◌,
  length, take, drop, length-append, take-append_le, take_all, drop-append, drop-append_add, leb,
  ◌==◌, if◌then◌else◌, ◌≡◌, refl, sym, ap, ◌∙◌, arith, append_assoc, bit_and,
}
use eframework.Base.Checked.{checked, checked-all}
use eframework.FastCgi.Response.{header, zeros, padding_of}

pub record Rec : Type 0 where
  pub kind : ℕ
  pub id : ℕ
  pub content : List ℕ

-- One record of version 1, and the bytes behind its padding.
abbrev pub body_of : (kind id n padding : ℕ) → List ℕ → Option (Rec × List ℕ)
body_of kind id n padding rest =
    if leb (n + padding) (length rest)
    then some (record { kind = kind; id = id; content = take n rest }, drop (n + padding) rest)
    else none

unfoldable pub read_record : List ℕ → Option (Rec × List ℕ)
read_record (version ∷ kind ∷ id1 ∷ id0 ∷ n1 ∷ n0 ∷ padding ∷ reserved ∷ rest) =
    if version == 1 then body_of kind (id1 * 256 + id0) (n1 * 256 + n0) padding rest else none
read_record _ = none

abbrev pub with_rec : Rec → Option (List Rec) → Option (List Rec)
with_rec r none = none
with_rec r (some rs) = some (r ∷ rs)

abbrev pub next_rec : Option (Rec × List ℕ) → (List ℕ → Option (List Rec)) → Option (List Rec)
next_rec none more = none
next_rec (some (r, rest)) more = with_rec r (more rest)

-- All records of a stream of bytes.
unfoldable pub read_records : (rounds : ℕ) → List ℕ → Option (List Rec)
read_records rounds [] = some []
read_records zero (b ∷ bytes) = none
read_records (suc rounds) (b ∷ bytes) = next_rec (read_record (b ∷ bytes)) (read_records rounds)

-- A record as it is written.
abbrev pub written_rec : (kind id : ℕ) → (content : List ℕ) → (padding : ℕ) → List ℕ
written_rec kind id content padding =
    header kind id (length content) padding ++ (content ++ zeros padding)

pub length-zeros : (n : ℕ) → length (zeros n) ≡ n
length-zeros zero = refl
length-zeros (suc n) = ap suc (length-zeros n)

body_of_lem :
    (kind id padding : ℕ) (content rest : List ℕ)
    → body_of kind id (length content) padding (content ++ (zeros padding ++ rest))
      ≡ some (record { kind = kind; id = id; content = content }, rest)
body_of_lem kind id padding content rest =
    let z = length-zeros padding in
    let size = length-append content (zeros padding ++ rest) in
    let more = length-append (zeros padding) rest in
    let fits : leb (length content + padding) (length (content ++ (zeros padding ++ rest))) ≡ true =
      ground (arith, z, size, more) in
    let front : take (length content) (content ++ (zeros padding ++ rest)) ≡ content =
      take-append_le (length content) content _ (omega arith)
      ∙ take_all (length content) content (omega arith) in
    let behind : drop (length content + padding) (content ++ (zeros padding ++ rest)) ≡ rest =
      drop-append_add padding content (zeros padding ++ rest)
      ∙ ap (λ k. drop k (zeros padding ++ rest)) (sym z)
      ∙ drop-append (zeros padding) rest in
    rw (fits, front, behind) refl

pub read_record_lem :
    (kind id padding : ℕ) (content rest : List ℕ)
    → id < 65536
    → length content < 65536
    → read_record (written_rec kind id content padding ++ rest)
      ≡ some (record { kind = kind; id = id; content = content }, rest)
unfolding read_record
read_record_lem kind id padding content rest i n =
    let whole_id : id / 256 % 256 * 256 + id % 256 ≡ id = omega arith in
    let whole_n : length content / 256 % 256 * 256 + length content % 256 ≡ length content =
      omega arith in
    rw (whole_id, whole_n, append_assoc) (body_of_lem kind id padding content rest)

-- The padding fills a record up to eight bytes.
pub padding_of_lem : (n : ℕ) → ((n + padding_of n) % 8 ≡ 0) × (padding_of n ≤ 7)
unfolding checked
padding_of_lem n =
    let e : padding_of n ≡ (8 - n % 8) % 8 =
      ground
        (arith, checked-all (λ m. bit_and (8 - m) 7 == (8 - m) % 8) 8 (n % 8) refl (omega arith)) in
    (omega (arith, e), omega (arith, e))
