-- ===== src/Structure/Vector/Append.antt =====
-- ef_vector_append: with room, and where it grows an array.
use eframework.Base.{
  ℕ, zero, suc, ◌+◌, ◌*◌, ◌/◌, ◌^◌, ◌≤◌, ◌<◌, ◌≡◌, refl, ◌∙◌, inl, inr, true, false, Option, none,
  some, List, [], ◌∷◌, ◌++◌, arith, length, take, drop, ltb, Option-cases, add_size, mul_size,
}
use eframework.Structure.Util.{resize}
use eframework.Structure.Util.Resize.{resize_least, wanted}
use eframework.Structure.Memory.{
  done, fault, Allocator, cells, malloc, realloc, block_of, rewritten, write_at,
}
use eframework.Structure.Memory.Block.{
  malloc-length, realloc-length, write_at-ok, write_at-fault, rewritten-block,
}
use eframework.Structure.Vector.{Vector, IsValid, contents, new, regrow, store, append}

-- While the capacity of a valid vector is not used up, `ef_vector_append` puts the element behind
-- the others and returns its index; the capacity stays, and so does validity.
pub append_room :
    (al : Allocator) (vec : Vector) (x : ℕ)
    → IsValid vec
    → vec.len < vec.cap
    → (vec' : Vector) × (append al vec x ≡ done (some vec.len, vec'))
      × (contents vec' ≡ contents vec ++ (x ∷ []))
      × (vec'.len ≡ vec.len + 1)
      × (vec'.cap ≡ vec.cap)
      × IsValid vec'
unfolding append store
append_room al vec x v h =
    let (b, w) = write_at-ok (block_of vec.ptr) vec.len (x ∷ []) (omega arith) in
    let vec' : Vector = record vec { ptr = rewritten vec.ptr b; len = vec.len + 1 } in
    let next : add_size vec.len 1 ≡ vec.len + 1 = omega arith in
    let room : ltb vec.len vec.cap ≡ true = ground arith in
    let same : block_of (rewritten vec.ptr b) ≡ b = rewritten-block vec.ptr b w.size in
    (
      vec',
      rw (room, w.result, store, next),
      rw same w.prefix,
      refl,
      refl,
      record { len_in = omega arith; block = rw same (w.size ∙ v.block); small = v.small },
    )

-- The grown block has an eighth of the cells that the capacity promises.
regrow-granted :
    (al : Allocator) (ptr : Option (List ℕ)) (cap : ℕ)
    → al.grants cap ≡ true
    → (b : List ℕ) × (regrow al ptr cap ≡ some b) × (length b ≡ cap / 8)
unfolding regrow malloc realloc
regrow-granted al none cap g =
    let got : regrow al none cap ≡ some (cells al.junk 0 (cap / 8)) = rw g in
    (cells al.junk 0 (cap / 8), got, malloc-length al cap (cap / 8) got)
regrow-granted al (some old) cap g =
    let b = take (cap / 8) old ++ drop (length old) (cells al.junk 0 (cap / 8)) in
    let got : regrow al (some old) cap ≡ some b = rw g in
    (b, got, realloc-length al old cap (cap / 8) got)

-- If a valid vector that holds an element is full and the allocator grants the growth,
-- `ef_vector_append` writes the element outside of its block.
pub append_full_fault :
    (al : Allocator) (vec : Vector) (x : ℕ)
    → IsValid vec
    → vec.len ≡ vec.cap
    → 1 ≤ vec.cap
    → al.grants (vec.cap + 8) ≡ true
    → append al vec x ≡ fault
unfolding append store
append_full_fault al vec x v full used granted =
    let cap : ℕ = vec.cap + 8 in
    let grown : add_size vec.cap 8 ≡ cap = omega arith in
    let no_room : ltb vec.len vec.cap ≡ false = ground arith in
    let (b, got, size) = regrow-granted al vec.ptr cap granted in
    let outside : write_at b vec.len (x ∷ []) ≡ none =
      write_at-fault b vec.len (x ∷ []) (omega arith) in
    rw (no_room, grown, got, outside, store)

-- If the allocator grants 8 bytes, an empty vector takes one element with a capacity that says
-- eight; the next element is written outside of the block.
pub append_twice_fault :
    (al al' : Allocator) (x y : ℕ)
    → al.grants 8 ≡ true
    → (vec : Vector) × (append al (record { ptr = none; cap = 0; len = 0 }) x ≡ done (some 0, vec))
      × (contents vec ≡ x ∷ [])
      × (vec.cap ≡ 8)
      × (append al' vec y ≡ fault)
unfolding append store
append_twice_fault al al' x y granted =
    let (b, got, size) = regrow-granted al none 8 granted in
    let (b', w) = write_at-ok b 0 (x ∷ []) (omega arith) in
    let outside : write_at b' 1 (y ∷ []) ≡ none =
      write_at-fault b' 1 (y ∷ []) (omega (arith, w.size)) in
    (
      record { ptr = some b'; cap = 8; len = 1 },
      rw (got, w.result, store),
      w.prefix,
      refl,
      rw (outside, store),
    )

-- `ef_vector_new` gives a valid, empty vector with room for what was asked.
pub new-IsValid :
    (al al' : Allocator) (cap : ℕ) {vec : Vector}
    → cap ≤ 2 ^ 60
    → new al al' cap ≡ some vec
    → IsValid vec × (contents vec ≡ []) × (cap ≤ vec.cap)
unfolding new
new-IsValid al al' zero {vec} h e = ground arith
new-IsValid al al' (suc cap) {vec} h e =
    let n : ℕ = resize (suc cap) 8 in
    let wide : (suc cap ≤ wanted (suc cap) 8) × (wanted (suc cap) 8 ≤ 2 ^ 60) = ground arith in
    let (w, value, above, below) = resize_least (suc cap) 8 (omega arith) (omega arith) in
    let bytes : mul_size n 8 ≡ n * 8 = omega arith in
    let size : mul_size n 8 / 8 ≡ n = omega arith in
    elim (Option-cases (malloc al' (mul_size n 8) (mul_size n 8 / 8))) [
      | inl failed ↦ ground arith
      | inr (b, got) ↦ ground (arith, malloc-length al' (mul_size n 8) (mul_size n 8 / 8) got)
    ]
