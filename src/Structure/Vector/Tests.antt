-- ===== src/Structure/Vector/Tests.antt =====
-- Runs of src/structure/vector.c on small inputs.
use eframework.Base.{◌+◌, ◌≡◌, refl, true, none, some, [], ◌∷◌, ◌++◌, arith}
use eframework.Structure.Memory.{Allocator, done, fault}
use eframework.Structure.Vector.{Vector, IsValid, contents, append}
use eframework.Structure.Vector.Append.{append_room, append_full_fault, append_twice_fault}

abbrev generous : Allocator
generous = record { grants = λ _. true; junk = λ _. 0 }

abbrev one_pointer : Vector
one_pointer = record { ptr = some (11 ∷ 0 ∷ []); cap = 2; len = 1 }

one_pointer-IsValid : IsValid one_pointer
one_pointer-IsValid = record { len_in = omega arith; block = refl; small = omega arith }

abbrev full_vector : Vector
full_vector = record { ptr = some (11 ∷ 12 ∷ []); cap = 2; len = 2 }

full_vector-IsValid : IsValid full_vector
full_vector-IsValid = record { len_in = omega arith; block = refl; small = omega arith }

append_room_run :
    (vec' : Vector) × (append generous one_pointer 12 ≡ done (some 1, vec'))
    × (contents vec' ≡ (11 ∷ []) ++ (12 ∷ []))
    × (vec'.len ≡ 1 + 1)
    × (vec'.cap ≡ 2)
    × IsValid vec'
append_room_run = append_room generous one_pointer 12 one_pointer-IsValid (omega arith)

append_full_fault_example : append generous full_vector 13 ≡ fault
append_full_fault_example =
    append_full_fault generous full_vector 13 full_vector-IsValid refl (omega arith) refl

append_twice_fault_run :
    (vec : Vector) × (append generous (record { ptr = none; cap = 0; len = 0 }) 11
      ≡ done (some 0, vec))
    × (contents vec ≡ 11 ∷ [])
    × (vec.cap ≡ 8)
    × (append generous vec 12 ≡ fault)
append_twice_fault_run = append_twice_fault generous generous 11 12 refl
