-- ===== src/Structure/Str/Tests.antt =====
-- Runs of src/structure/string.c on small inputs.
use eframework.Base.{
  ℕ, ◌≡◌, refl, Bool, true, Option, some, List, [], ◌∷◌, ◌++◌, arith, take, if◌then◌else◌,
}
use eframework.Structure.Memory.{Allocator, done, block_of, strlen}
use eframework.Structure.Str.{Str, IsTerminated, contents, length_of, append}
use eframework.Structure.Str.Terminated.{string_append_lem}

abbrev generous : Allocator
generous = record { grants = λ _. true; junk = λ _. 0 }

abbrev hi : Str
hi = record { str = some (104 ∷ 105 ∷ 0 ∷ []); len = 2 }

abbrev bang : Option (List ℕ)
bang = some (33 ∷ 0 ∷ [])

bang-length : length_of bang 0 ≡ some 1
unfolding length_of strlen
bang-length = refl

string_append_lem_example :
    (out : Bool × Str) × (append generous hi bang 0 ≡ done out)
    × (contents out.1 ≡ (if out.0 then contents hi ++ take 1 (block_of bang) else contents hi))
    × IsTerminated out.1
string_append_lem_example =
    string_append_lem generous hi bang 0 (omega arith, refl) bang-length (omega arith) (omega arith)
