-- ===== src/Structure/Util/Tests.antt =====
-- Runs of src/structure/util.h and hash_recap on small inputs.
use eframework.Base.{ℕ, ◌+◌, ◌^◌, ◌≤◌, ◌<◌, ◌≡◌, ◌⊎◌, arith}
use eframework.Structure.Util.{resize, hash_recap}
use eframework.Structure.Util.Resize.{wanted, resize_least, hash_recap_least}

resize_least_example :
    (w : ℕ) × (resize 100 8 ≡ 2 ^ w)
    × (wanted 100 8 ≤ resize 100 8)
    × (resize 100 8 < wanted 100 8 + wanted 100 8)
resize_least_example = resize_least 100 8 (omega arith) (omega arith)

hash_recap_least_run :
    (w : ℕ) × (hash_recap 100 ≡ 2 ^ w)
    × (100 ≤ hash_recap 100)
    × (8 ≤ hash_recap 100)
    × ((hash_recap 100 ≡ 8) ⊎ (hash_recap 100 < 100 + 100))
hash_recap_least_run = hash_recap_least 100 (omega arith)
