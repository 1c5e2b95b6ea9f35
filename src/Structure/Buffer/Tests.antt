-- ===== src/Structure/Buffer/Tests.antt =====
-- Runs of src/structure/buffer.c on small inputs.
use eframework.Base.{◌≡◌, refl, Bool, true, some, [], ◌∷◌, arith}
use eframework.Structure.Memory.{Allocator, done}
use eframework.Structure.Buffer.{Buffer, IsValid, append}
use eframework.Structure.Buffer.Stored.{Stored, buffer_append_lem}

abbrev generous : Allocator
generous = record { grants = λ _. true; junk = λ _. 0 }

abbrev two_bytes : Buffer
two_bytes = record { ptr = some (1 ∷ 2 ∷ 0 ∷ 0 ∷ []); cap = 4; len = 2 }

two_bytes-IsValid : IsValid two_bytes
two_bytes-IsValid = record { len_in = omega arith; block = refl; small = omega arith }

buffer_append_lem_example :
    (out : Bool × Buffer) × (append 2 generous two_bytes (3 ∷ 4 ∷ 5 ∷ []) ≡ done out)
    × Stored two_bytes (3 ∷ 4 ∷ 5 ∷ []) out
buffer_append_lem_example =
    buffer_append_lem generous two_bytes (3 ∷ 4 ∷ 5 ∷ []) 2 two_bytes-IsValid (omega arith)
      (omega arith)
