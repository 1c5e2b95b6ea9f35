-- ===== src/Structure/BufferIo/Tests.antt =====
-- Runs of src/structure/bufferio.c on small inputs.
use eframework.Base.{◌≡◌, refl, true, some, List, [], ◌∷◌, arith}
use eframework.Base.Int.{pos}
use eframework.Structure.Memory.{Allocator, done, unfinished}
use eframework.Structure.Buffer.{Buffer, IsValid, contents}
use eframework.Structure.BufferIo.{Answer, answer, Wrote, bio_write, flush}
use eframework.Structure.BufferIo.Send.{Takes}
use eframework.Structure.BufferIo.Writer.{Queues, bio_write_lem, flush_lem}
use eframework.Structure.BufferIo.Reader.{bytes, Reader, bio_read, skip}
use eframework.Structure.BufferIo.Refill.{Short, bio_read-Short}
use eframework.Structure.BufferIo.Skip.{endings, skip-unfinished}

abbrev generous : Allocator
generous = record { grants = λ _. true; junk = λ _. 0 }

abbrev two_bytes : Buffer
two_bytes = record { ptr = some (1 ∷ 2 ∷ 0 ∷ 0 ∷ 0 ∷ 0 ∷ 0 ∷ 0 ∷ []); cap = 8; len = 2 }

two_bytes-IsValid : IsValid two_bytes
two_bytes-IsValid = record { len_in = omega arith; block = refl; small = omega arith }

-- The kernel takes a byte at a time.
abbrev byte_wise : List Answer
byte_wise =
    answer (pos 1) 0
    ∷ answer (pos 1) 0
    ∷ answer (pos 1) 0
    ∷ answer (pos 1) 0
    ∷ answer (pos 1) 0
    ∷ []

byte_wise-Takes : Takes byte_wise
byte_wise-Takes = (refl, (refl, (refl, (refl, (refl, tt)))))

bio_write_lem_example :
    Queues 5
      (contents two_bytes)
      (3 ∷ 4 ∷ 5 ∷ [])
      (bio_write 2 generous byte_wise two_bytes (3 ∷ 4 ∷ 5 ∷ []))
bio_write_lem_example =
    bio_write_lem 2 generous byte_wise two_bytes (3 ∷ 4 ∷ 5 ∷ []) two_bytes-IsValid (omega arith)
      (omega arith) byte_wise-Takes (omega arith)

flush_lem_run :
    (w : Wrote) × (flush byte_wise two_bytes ≡ done w)
    × (IsValid w.buffer × ((w.buffer.len ≡ 0) × (w.bytes ≡ contents two_bytes)))
flush_lem_run = flush_lem byte_wise two_bytes two_bytes-IsValid byte_wise-Takes (omega arith)

abbrev one_left : Reader
one_left = record { offset = 1; buffer = two_bytes }

bio_read-Short_example : Short one_left 3 (bio_read (bytes 3 (4 ∷ []) ∷ []) one_left 3)
bio_read-Short_example =
    bio_read-Short one_left 3 (4 ∷ []) [] 3 two_bytes-IsValid (omega arith) (omega arith)
      (omega arith) (omega arith) (omega arith)

skip-unfinished_example : skip 100 (endings 100) one_left 3 ≡ unfinished
skip-unfinished_example =
    skip-unfinished 100 one_left 3 two_bytes-IsValid (omega arith) (omega arith) (omega arith)
