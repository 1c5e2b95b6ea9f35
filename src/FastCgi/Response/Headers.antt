-- ===== src/FastCgi/Response/Headers.antt =====
-- The text of the headers of a response.
use eframework.Base.{
  ℕ, ◌+◌, ◌^◌, ◌≤◌, ◌≡◌, refl, ap, ◌∙◌, List, [], ◌∷◌, ◌++◌, length, length-take, length-append,
  append_assoc, append-nil, arith, Option, none, some,
}
use eframework.Structure.Memory.{done, Allocator, block_of}
use eframework.Structure.Buffer.{Buffer, IsValid, contents}
use eframework.Structure.Buffer.Valid.{Grants, append-granted}
use eframework.FastCgi.Response.{append_all, Bucket, header_pieces, bucket_pieces, all_pieces}

abbrev pub concat : List (List ℕ) → List ℕ
concat [] = []
concat (p ∷ ps) = p ++ concat ps

pub concat-append : (ps qs : List (List ℕ)) → concat (ps ++ qs) ≡ concat ps ++ concat qs
concat-append [] qs = refl
concat-append (p ∷ ps) qs = rw (concat-append ps qs, append_assoc) refl

pub length-contents : (buf : Buffer) → IsValid buf → length (contents buf) ≡ buf.len
length-contents buf v = omega (arith, length-take buf.len (block_of buf.ptr), v.block, v.len_in)

-- With all memory granted, the pieces stand behind what was there.
pub append_all-granted :
    (als : ℕ → Allocator) (k : ℕ) (pieces : List (List ℕ)) (buf : Buffer)
    → ((i : ℕ) → Grants (als i))
    → IsValid buf
    → buf.len + length (concat pieces) ≤ 2 ^ 63
    → (buf' : Buffer) × (append_all als k pieces buf ≡ done buf')
      × IsValid buf'
      × (contents buf' ≡ contents buf ++ concat pieces)
unfolding append_all
append_all-granted als k [] buf g v h = (buf, refl, v, rw append-nil refl)
append_all-granted als k (piece ∷ pieces) buf g v h =
    let size = length-append piece (concat pieces) in
    let (next, e, valid, holds) = append-granted (als k) buf piece (g k) v (omega (arith, size)) in
    let longer : next.len ≡ buf.len + length piece = omega (
      arith,
      length-contents next valid,
      length-contents buf v,
      ap length holds,
      length-append (contents buf) piece,
    ) in
    let (last, e', valid', holds') =
      append_all-granted als (k + 1) pieces next g valid (omega (arith, size, longer)) in
    (last, rw (e, append_all) e', valid', holds' ∙ rw (holds, append_assoc) refl)

-- The text of the headers.
abbrev pub header_lines : (key : List ℕ) → List (List ℕ) → List ℕ
header_lines key [] = []
header_lines key (value ∷ values) =
    key ++ ((58 ∷ 32 ∷ []) ++ (value ++ ((13 ∷ 10 ∷ []) ++ header_lines key values)))

abbrev pub bucket_lines : Bucket → List ℕ
bucket_lines b = elim b.key [
  | none ↦ []
  | some key ↦ elim b.values [ none ↦ [] | some values ↦ header_lines key values ]
]

abbrev pub text_of : List Bucket → List ℕ
text_of [] = 13 ∷ 10 ∷ []
text_of (b ∷ buckets) = bucket_lines b ++ text_of buckets

concat-header_pieces :
    (key : List ℕ) (values : List (List ℕ))
    → concat (header_pieces key values) ≡ header_lines key values
concat-header_pieces key [] = refl
concat-header_pieces key (value ∷ values) = rw (concat-header_pieces key values) refl

concat-bucket_pieces :
    (key : Option (List ℕ)) (values : Option (List (List ℕ)))
    → let b : Bucket = record { key = key; values = values } in
      concat (bucket_pieces b) ≡ bucket_lines b
concat-bucket_pieces none values = refl
concat-bucket_pieces (some key) none = refl
concat-bucket_pieces (some key) (some values) = concat-header_pieces key values

pub concat-all_pieces : (buckets : List Bucket) → concat (all_pieces buckets) ≡ text_of buckets
concat-all_pieces [] = refl
concat-all_pieces (b ∷ buckets) =
    concat-append (bucket_pieces b) (all_pieces buckets)
    ∙ rw (concat-bucket_pieces b.key b.values, concat-all_pieces buckets) refl
