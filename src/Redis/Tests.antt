-- ===== src/Redis/Tests.antt =====
-- Runs of src/redis.c on small inputs.
use eframework.Base.{ℕ, ◌≡◌, refl, true, some, List, [], ◌∷◌, ◌++◌, arith}
use eframework.Base.Int.{pos}
use eframework.Structure.Memory.{done, fault, Allocator, malloc, write_at}
use eframework.Redis.{
  Connection, long, string, array, element, nil, parse_long, parse_string, parse_bulk_string,
  long_at, await_line, find_line, strncpy, read_number, parse_len, receive,
}
use eframework.Redis.Array.{
  parse_error, error_at, error_behind, copy_kind, copy_text, find_space, read_reply, reply_of,
  parse_array, elements_of, parse_elements,
}
use eframework.Redis.Complete.{parse_long_lem, parse_bulk_string_lem}
use eframework.Redis.Split.{parse_string_split}

abbrev all_granted : Allocator
all_granted = record { grants = λ n. true; junk = λ i. 0 }

-- ":17", "$2" with "ab", and "-E x".
abbrev number_text : List ℕ
number_text = 58 ∷ 49 ∷ 55 ∷ 13 ∷ 10 ∷ 0 ∷ []

abbrev bulk_text : List ℕ
bulk_text = 36 ∷ 50 ∷ 13 ∷ 10 ∷ 97 ∷ 98 ∷ 13 ∷ 10 ∷ 0 ∷ []

abbrev error_text : List ℕ
error_text = 45 ∷ 69 ∷ 32 ∷ 120 ∷ 13 ∷ 10 ∷ 0 ∷ []

abbrev holding : List ℕ → ℕ → Connection
holding buf end = record { buf = buf; seek = 0; end = end }

parse_long_lem_example :
    parse_long (λ n. true) [] 0 (holding number_text 5)
    ≡ done (record {
      reply = some (long (pos 17));
      con = record { buf = number_text; seek = 5; end = 5 };
      script = [];
    })
parse_long_lem_example =
    parse_long_lem (λ n. true) [] (holding number_text 5) (49 ∷ 55 ∷ []) (0 ∷ []) refl
      ((omega arith, omega arith), ((omega arith, omega arith), tt)) refl

parse_bulk_string_lem_example :
    parse_bulk_string (λ n. true) [] 0 (holding bulk_text 8)
    ≡ done (record {
      reply = some (string (97 ∷ 98 ∷ []));
      con = record { buf = bulk_text; seek = 8; end = 8 };
      script = [];
    })
parse_bulk_string_lem_example =
    parse_bulk_string_lem (λ n. true) [] (holding bulk_text 8) (50 ∷ []) (97 ∷ 98 ∷ []) (0 ∷ [])
      refl refl ((omega arith, omega arith), tt) (omega arith) refl
      (λ e. omega (arith, e), (λ e. omega (arith, e), tt)) refl (omega arith) (omega arith)

-- The buffer is full, and the second letter is still to come.
abbrev full : Connection
full = record { buf = 0 ∷ 0 ∷ 97 ∷ []; seek = 2; end = 3 }

parse_string_split_example :
    parse_string (λ n. true) (some (98 ∷ 13 ∷ 10 ∷ []) ∷ []) (pos 2) 2 full
    ≡ done (record {
      reply = some (string (97 ∷ 98 ∷ []));
      con = record { buf = 98 ∷ 13 ∷ 10 ∷ []; seek = 1; end = 3 };
      script = [];
    })
parse_string_split_example =
    parse_string_split (λ n. true) [] 2 full (97 ∷ []) (98 ∷ []) refl refl
      (λ e. omega (arith, e), tt) (λ e. omega (arith, e), tt) (omega arith) refl refl (omega arith)
      (omega arith) (omega arith)

-- The zero behind each of the two texts of an error is written outside of its block.
parse_error_overrun : parse_error all_granted [] 0 (holding error_text 6) ≡ fault
unfolding parse_error error_at error_behind copy_kind copy_text find_space await_line find_line
    strncpy malloc write_at
parse_error_overrun = refl

-- "*1", and the number in it.
abbrev array_text : List ℕ
array_text = 42 ∷ 49 ∷ 13 ∷ 10 ∷ 58 ∷ 55 ∷ 13 ∷ 10 ∷ []

read_reply_array :
    read_reply 1 all_granted
      (some array_text ∷ [])
      (holding (0 ∷ 0 ∷ 0 ∷ 0 ∷ 0 ∷ 0 ∷ 0 ∷ 0 ∷ 0 ∷ []) 0)
    ≡ done (record {
      reply = some (array (element (long (pos 7)) nil));
      con = record { buf = array_text ++ (0 ∷ []); seek = 8; end = 8 };
      script = [];
    })
unfolding read_reply reply_of parse_array elements_of parse_elements parse_long long_at await_line
    find_line read_number parse_len receive write_at
read_reply_array = refl
