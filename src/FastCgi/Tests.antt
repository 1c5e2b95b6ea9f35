-- ===== src/FastCgi/Tests.antt =====
-- Runs of src/fastcgi.c on small inputs.
use eframework.Base.{
  ℕ, zero, suc, ap, ◌≡◌, ◌≢◌, refl, true, some, none, List, [], ◌∷◌, ◌++◌, length, arith,
}
use eframework.Structure.Memory.{done, fault, unfinished, read_at, Allocator}
use eframework.FastCgi.Params.{
  Param, long_length, read_length, read_value, read_name, read_param, parse, parse_params,
}
use eframework.FastCgi.Params.Encoded.{encode_all, parse_params-encode_all}
use eframework.FastCgi.Params.Total.{parse_params_finishes, parse_params_overrun}
use eframework.FastCgi.Response.{Bucket, Memory, write_response}
use eframework.FastCgi.Response.Delivered.{Delivers, AllGranted, write_response_lem}
use eframework.FastCgi.Response.Headers.{text_of}
use eframework.Structure.BufferIo.{Answer, answer}
use eframework.Structure.BufferIo.Send.{Takes}
use eframework.Base.Int.{pos}

abbrev two_params : List Param
two_params =
    record { name = 65 ∷ 66 ∷ []; value = some (49 ∷ []) }
    ∷ record { name = 67 ∷ []; value = none }
    ∷ []

parse_two : parse_params (2 ∷ 1 ∷ 65 ∷ 66 ∷ 49 ∷ 1 ∷ 0 ∷ 67 ∷ []) 8 ≡ done two_params
unfolding parse_params parse read_param read_length long_length read_name read_value read_at
parse_two = refl

parse_params-encode_all_example :
    parse_params (encode_all two_params ++ (7 ∷ [])) (length (encode_all two_params))
    ≡ done two_params
parse_params-encode_all_example =
    parse_params-encode_all two_params (7 ∷ [])
      ((omega arith, omega arith, λ e. cc), ((omega arith, omega arith, λ e. cc), tt))

parse_params_finishes_example : parse_params (200 ∷ 1 ∷ 2 ∷ []) 3 ≢ unfinished
parse_params_finishes_example = parse_params_finishes (200 ∷ 1 ∷ 2 ∷ []) 3

parse_params_overrun_example : parse_params (5 ∷ 1 ∷ 65 ∷ 66 ∷ []) 4 ≡ fault
parse_params_overrun_example =
    parse_params_overrun 5 1 (65 ∷ 66 ∷ []) (omega arith) (omega arith) (omega arith)

abbrev one_header : List Bucket
one_header = record { key = some (65 ∷ []); values = some ((49 ∷ []) ∷ []) } ∷ []

abbrev generous : Allocator
generous = record { grants = λ n. true; junk = λ i. 0 }

abbrev all_memory : Memory
all_memory = record {
  buffer = generous;
  appends = λ k. generous;
  writer = true;
  writer_buffer = generous;
  writes = generous;
}

all_memory-AllGranted : AllGranted all_memory
all_memory-AllGranted = record {
  buffer = λ n. refl;
  appends = λ k n. refl;
  writer = refl;
  writer_buffer = λ n. refl;
}

-- The kernel takes up to three bytes at a time.
abbrev three_bytes : ℕ → List Answer
three_bytes zero = []
three_bytes (suc n) = answer (pos 3) 0 ∷ three_bytes n

three_bytes-Takes : (n : ℕ) → Takes (three_bytes n)
three_bytes-Takes zero = tt
three_bytes-Takes (suc n) = (refl, three_bytes-Takes n)

length-three_bytes : (n : ℕ) → length (three_bytes n) ≡ n
length-three_bytes zero = refl
length-three_bytes (suc n) = ap suc (length-three_bytes n)

write_response_lem_example :
    Delivers 7
      (text_of one_header ++ (1 ∷ 2 ∷ []))
      (write_response 100 0 all_memory (three_bytes 176) 7 (some one_header) (some (1 ∷ 2 ∷ [])))
write_response_lem_example =
    write_response_lem 100 0 all_memory (three_bytes 176) 7 one_header (some (1 ∷ 2 ∷ []))
      all_memory-AllGranted (omega arith) (omega arith) (three_bytes-Takes 176)
      (omega arith, omega (arith, length-three_bytes 176))
