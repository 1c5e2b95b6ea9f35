-- ===== src/Redis/Array.antt =====
-- `parse_array`, `parse_error` and `ef_redis_read_reply` of src/redis.c. Arrays in arrays take their depth
-- as an argument; a deeper one is `unfinished`.
use eframework.Base.{
  ℕ, zero, suc, ◌+◌, not, Option, none, some, List, [], ◌∷◌, drop, ◌==◌, if◌then◌else◌, mul_size,
  sub_size,
}
use eframework.Base.Int.{ℤ, pos, negsuc, same}
use eframework.Structure.Memory.{Outcome, done, fault, unfinished, Allocator, malloc, write_at}
use eframework.Redis.{
  Connection, Reply, array, null, error, receive, Replies, nil, element, missing, unset, Script,
  Parsed, failed, strncpy, find_line, move_rest, reply_read_more, then_do, Line, await_line,
  with_line, parse_len, reply_size, to_size, parse_long, parse_single_string, parse_bulk_string,
}

-- The elements of an array, and what is left.
pub record Elements : Type 0 where
  pub replies : Replies
  pub con : Connection
  pub script : Script

abbrev pub added : Option Reply → Replies → Replies
added none rest = missing rest
added (some r) rest = element r rest

abbrev pub then_elements :
    Outcome Parsed → (Connection → Script → Outcome Elements) → Outcome Elements
then_elements o more = then_do o (λ p.
    then_do (more p.con p.script) (λ e. done (record e { replies = added p.reply e.replies })))

-- The loop over the elements; `nested` is `parse_array` for an element that is an array.
unfoldable pub parse_elements :
    (nested : Script → ℕ → Connection → Outcome Parsed)
    → Allocator
    → (num : ℕ) → Script
    → (start : ℕ) → Connection
    → Outcome Elements
parse_elements nested al zero script start con =
    done (record { replies = nil; con = con; script = script })
parse_elements nested al (suc num) script start con =
    let next =
      λ (left : Connection) (rest : Script). parse_elements nested al num rest left.seek left in
    let skipped = parse_elements nested al num script start con in
    elim (drop start con.buf) [
      | [] ↦ fault
      | c ∷ cells ↦
          if c == 36
          then then_elements (parse_bulk_string al.grants script start con) next
          else if c == 58
          then then_elements (parse_long al.grants script start con) next
          else if c == 42
          then then_elements (nested script start con) next
          else then_do skipped (λ e. done (record e { replies = unset e.replies }))
    ]

abbrev pub array_size : ℕ
array_size = 16

abbrev pub pointer_size : ℕ
pointer_size = 8

-- The number of rounds of `for (i = 0; i < repnum; i++)`.
abbrev pub count_of : ℤ → ℕ
count_of (pos n) = n
count_of (negsuc n) = 0

unfoldable pub elements_of :
    (nested : Script → ℕ → Connection → Outcome Parsed)
    → Allocator
    → Script
    → (num : ℤ) → (start : ℕ) → Connection
    → Outcome Parsed
elements_of nested al script num start con =
    if not (al.grants array_size)
    then failed con script
    else if same num (negsuc 0)
    then done (record { reply = some null; con = con; script = script })
    else if not (al.grants (mul_size (to_size num) pointer_size))
    then failed con script
    else then_do (parse_elements nested al (count_of num) script start con)
        (λ e. done (record { reply = some (array e.replies); con = e.con; script = e.script }))

-- The search for the end of the first line: what is read later is not searched, so that the loop ends only
-- when a read fails.
unfoldable pub read_on : Script → Connection → Outcome Parsed
read_on [] con = unfinished
read_on (none ∷ script) con = then_do (move_rest con) (λ left. failed left script)
read_on (some bytes ∷ script) con = then_do (reply_read_more bytes con) (read_on script)

abbrev pub array_line :
    (nested : Script → ℕ → Connection → Outcome Parsed)
    → Allocator
    → Script
    → (start : ℕ) → Connection
    → Option ℕ
    → Outcome Parsed
array_line nested al script start con none = read_on script con
array_line nested al script start con (some size) = then_do (parse_len (drop start con.buf)) (λ num.
    elements_of nested al script num (start + size + 2)
      (record con { seek = con.seek + (size + 2) }))

-- `parse_array`.
unfoldable pub parse_array :
    (depth : ℕ) → Allocator → Script → (start : ℕ) → Connection → Outcome Parsed
parse_array zero al script start con = unfinished
parse_array (suc depth) al script start con =
    if al.grants reply_size
    then then_do (find_line (drop start con.buf))
        (array_line (parse_array depth al) al script start con)
    else failed con script

-- `strstr(buf, " ")`.
unfoldable pub find_space : List ℕ → Outcome (Option ℕ)
find_space [] = fault
find_space (c ∷ cells) =
    let rest = find_space cells in
    if c == 0
    then done none
    else if c == 32
    then done (some 0)
    else then_do rest (λ o. done (elim o [ none ↦ none | some n ↦ some (suc n) ]))

-- A copy of `n` cells with a zero behind them, in a block of `n` cells.
unfoldable pub copy_text : (block : List ℕ) → (n : ℕ) → List ℕ → Outcome (List ℕ)
copy_text block n src = elim (strncpy n src) [
  | none ↦ fault
  | some cells ↦ elim (write_at block 0 cells) [
    | none ↦ fault
    | some text ↦ elim (write_at text n (0 ∷ [])) [ none ↦ fault | some ended ↦ done ended ]
  ]
]

-- `while (*start == ' ')`: how many blanks there are.
unfoldable pub blanks : List ℕ → Outcome ℕ
blanks [] = fault
blanks (c ∷ cells) =
    let rest = blanks cells in if c == 32 then then_do rest (λ n. done (suc n)) else done 0

-- The text behind the type, up to the end of the line, in a block of its size; NULL is written to where the
-- block is refused. The record of the two texts is not reached: see `copy_text`.
unfoldable pub copy_info : Allocator → List ℕ → (n : ℕ) → Outcome (List ℕ)
copy_info al src n = elim (malloc al n n) [ none ↦ fault | some block ↦ copy_text block n src ]

-- The type of an error, up to the blank; it is not set if its block is refused.
unfoldable pub copy_kind : Allocator → List ℕ → (n : ℕ) → Outcome (List ℕ)
copy_kind al src n = elim (malloc al n n) [ none ↦ done [] | some block ↦ copy_text block n src ]

-- The text of an error, from `start` on and behind `n` blanks.
unfoldable pub with_info :
    Allocator → Line → (start : ℕ) → (kind : List ℕ) → (n : ℕ) → Outcome Parsed
with_info al l start kind n =
    then_do (copy_info al (drop (start + n) l.con.buf) (sub_size (l.start + l.size) (start + n)))
      (λ info. done (record { reply = some (error kind info); con = l.con; script = l.script }))

-- What `parse_error` makes of a line and its first blank. Without one, the text starts behind NULL.
unfoldable pub error_behind : Allocator → Line → Option ℕ → Outcome Parsed
error_behind al l none = fault
error_behind al l (some blank) =
    let start = l.start + blank + 1 in
    then_do (copy_kind al (drop (l.start + 1) l.con.buf) (sub_size blank 1))
      (λ kind. then_do (blanks (drop start l.con.buf)) (with_info al l start kind))

-- `parse_error` of a complete line.
unfoldable pub error_at : Allocator → Line → Outcome Parsed
error_at al l = then_do (find_space (drop l.start l.con.buf)) (error_behind al l)

-- The record of an error: two pointers.
abbrev pub error_size : ℕ
error_size = 16

unfoldable pub parse_error : Allocator → Script → (start : ℕ) → Connection → Outcome Parsed
parse_error al script start con =
    if al.grants reply_size
    then then_do (await_line script start con) (λ a.
      with_line a (λ l. if al.grants error_size then error_at al l else failed l.con l.script))
    else failed con script

-- `ef_redis_read_reply`, by the first character that the server has sent.
unfoldable pub reply_of : (depth : ℕ) → Allocator → Script → Connection → Outcome Parsed
reply_of depth al script con = elim con.buf [
  | [] ↦ fault
  | c ∷ cells ↦
      if c == 45
      then parse_error al script 0 con
      else if c == 43
      then parse_single_string al.grants script 0 con
      else if c == 58
      then parse_long al.grants script 0 con
      else if c == 42
      then parse_array depth al script 0 con
      else if c == 36
      then parse_bulk_string al.grants script 0 con
      else failed con script
]

unfoldable pub read_reply : (depth : ℕ) → Allocator → Script → Connection → Outcome Parsed
read_reply depth al [] con = unfinished
read_reply depth al (none ∷ script) con = failed con script
read_reply depth al (some bytes ∷ script) con =
    then_do (receive bytes (record con { seek = 0; end = 0 })) (reply_of depth al script)
