-- ===== src/Basic/Tests.antt =====
-- Runs of src/basic/basic.c on small inputs.
use eframework.Base.{◌+◌, ◌≡◌, true, [], ◌∷◌, ◌++◌, length, arith}
use eframework.Base.Int.{pos}
use eframework.Structure.Memory.{done}
use eframework.Basic.{int2str, str2int, hexstr2int}
use eframework.Basic.Decimal.{str2int-int2str, hexstr2int-letter}
use eframework.Basic.Lower.{Lowered, strtolower-Lowered}

str2int-int2str_example :
    let text = int2str true (pos 1024) in str2int (text ++ (0 ∷ [])) (length text) ≡ done (pos 1024)
str2int-int2str_example = str2int-int2str 1024 (0 ∷ [])

hexstr2int-letter_run : hexstr2int ((97 + 1) ∷ 0 ∷ []) 1 ≡ done (pos (49 + 1))
hexstr2int-letter_run = hexstr2int-letter 1 (0 ∷ []) (omega arith)

strtolower-Lowered_run : Lowered (72 ∷ 105 ∷ 0 ∷ []) 2
strtolower-Lowered_run = strtolower-Lowered (72 ∷ 105 ∷ 0 ∷ []) 2 (omega arith)
