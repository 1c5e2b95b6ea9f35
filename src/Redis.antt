-- ===== src/Redis.antt =====
-- src/redis.c, src/redis.h: the replies of a server. The answers of `ef_wrap_read` are a script, where a
-- negative answer is `none`; a call that waits for more when it ends is `unfinished`. A pointer into the
-- buffer is an offset, and a read or a write outside of a block is a fault. Integers do not overflow.
pub mod Lines
pub mod Complete
pub mod Array
pub mod Split
pub mod Command
mod Tests
use eframework.Base.{
  ℕ, zero, suc, ◌+◌, ◌-◌, ◌*◌, ◌^◌, Bool, true, false, not, ◌&&◌, ◌||◌, Option, none, some, List,
  [], ◌∷◌, ◌++◌, length, take, drop, ltb, leb, ◌==◌, if◌then◌else◌, add_size, sub_size, size_mod,
}
use eframework.Base.Int.{ℤ, pos, negsuc, negative, plus, scale, same}
use eframework.Structure.Memory.{Outcome, done, fault, unfinished, write_at}

abbrev pub res_bufsize : ℕ
res_bufsize = 1024

-- `ef_redis_connection_t`, without the socket.
pub record Connection : Type 0 where
  pub buf : List ℕ
  pub seek : ℕ
  pub end : ℕ

mutual
  -- `ef_redis_reply_t`. In an array, `missing` is NULL, and `unset` is an element that is never set.
  pub data Reply : Type 0 where
    long : (d : ℤ) → Reply
    string : (text : List ℕ) → Reply
    null : Reply
    array : Replies → Reply
    error : (kind info : List ℕ) → Reply

  pub data Replies : Type 0 where
    nil : Replies
    element : Reply → Replies → Replies
    missing : Replies → Replies
    unset : Replies → Replies

abbrev pub Script : Type 0
Script = List (Option (List ℕ))

-- A reply, or NULL, and what is left.
pub record Parsed : Type 0 where
  pub reply : Option Reply
  pub con : Connection
  pub script : Script

abbrev pub failed : Connection → Script → Outcome Parsed
failed con script = done (record { reply = none; con = con; script = script })

-- `n` cells that `strncpy` writes: those of the source up to a zero, and zeros from there on.
unfoldable pub strncpy : (n : ℕ) → List ℕ → Option (List ℕ)
strncpy zero src = some []
strncpy (suc n) [] = none
strncpy (suc n) (c ∷ src) = elim (strncpy n (if c == 0 then 0 ∷ src else src)) [
  | none ↦ none
  | some cells ↦ some (c ∷ cells)
]

-- `strstr(buf, "\r\n")`.
unfoldable pub find_line : List ℕ → Outcome (Option ℕ)
find_line [] = fault
find_line (c ∷ []) = if c == 0 then done none else fault
find_line (c ∷ d ∷ cells) =
    let rest = find_line (d ∷ cells) in
    if c == 0 then done none else if (c == 13) && (d == 10) then done (some 0) else elim rest [
      | fault ↦ fault
      | unfinished ↦ unfinished
      | done none ↦ done none
      | done (some n) ↦ done (some (suc n))
    ]

-- `reply_read_more`: what is not read yet is moved to the front,
unfoldable pub move_rest : Connection → Outcome Connection
move_rest con =
    let copylen = sub_size con.end con.seek in
    elim (strncpy copylen (drop con.seek con.buf)) [
      | none ↦ fault
      | some cells ↦ elim (write_at con.buf 0 cells) [
        | none ↦ fault
        | some moved ↦ done (record { buf = moved; seek = 0; end = copylen })
      ]
    ]

-- and the bytes that the server has sent are put behind it.
unfoldable pub receive : (bytes : List ℕ) → Connection → Outcome Connection
receive bytes con = elim (write_at con.buf con.end bytes) [
  | none ↦ fault
  | some cells ↦ done (record con { buf = cells; end = con.end + length bytes })
]

abbrev pub then_do : {A B : Type 0} → Outcome A → (A → Outcome B) → Outcome B
then_do fault f = fault
then_do unfinished f = unfinished
then_do (done a) f = f a

unfoldable pub reply_read_more : (bytes : List ℕ) → Connection → Outcome Connection
reply_read_more bytes con = then_do (move_rest con) (receive bytes)

-- A line that is complete: where it starts, its length, the connection and the script.
pub record Line : Type 0 where
  pub start : ℕ
  pub size : ℕ
  pub con : Connection
  pub script : Script

-- `lost` is a failure to read.
pub data Awaited : Type 0 where
  line : Line → Awaited
  lost : Connection → Script → Awaited

abbrev pub found : (start : ℕ) → Connection → Script → Outcome Awaited → Option ℕ → Outcome Awaited
found start con script more none = more
found start con script more (some n) =
    done (line (record { start = start; size = n; con = con; script = script }))

-- The search for the end of a line, with more read as long as it is not there.
unfoldable pub await_line : Script → (start : ℕ) → Connection → Outcome Awaited
await_line [] start con = then_do (find_line (drop start con.buf)) (found start con [] unfinished)
await_line (none ∷ script) start con =
    then_do (find_line (drop start con.buf))
      (found start con (none ∷ script) (then_do (move_rest con) (λ left. done (lost left script))))
await_line (some bytes ∷ script) start con = then_do (find_line (drop start con.buf)) (
    found start con (some bytes ∷ script)
      (then_do (reply_read_more bytes con) (await_line script 0)))

-- A `char` as an `int`.
abbrev pub char : ℕ → ℤ
char c = if ltb c 128 then pos c else negative (256 - c)

-- `n = n * 10 + (*buf) - '0'` up to a '\r': the number, and how many characters it has.
unfoldable pub read_number : (n : ℤ) → List ℕ → Outcome (ℤ × ℕ)
read_number n [] = fault
read_number n (c ∷ cells) =
    let rest = read_number (plus (plus (scale n 10) (char c)) (negsuc 47)) cells in
    if c == 13 then done (n, 0) else then_do rest (λ out. done (out.0, suc out.1))

-- `parse_len`.
unfoldable pub parse_len : List ℕ → Outcome ℤ
parse_len [] = fault
parse_len (c ∷ []) = if not (c == 36) && not (c == 42) then done (negsuc 0) else fault
parse_len (c ∷ d ∷ cells) =
    if (not (c == 36) && not (c == 42)) || (d == 45)
    then done (negsuc 0)
    else then_do (read_number (pos 0) (d ∷ cells)) (λ out. done out.0)

abbrev pub with_line : Awaited → (Line → Outcome Parsed) → Outcome Parsed
with_line (line l) f = f l
with_line (lost con script) f = failed con script

-- `parse_long` of a complete line, behind its ':'.
unfoldable pub long_at : Line → Outcome Parsed
long_at l = then_do (read_number (pos 0) (drop (l.start + 1) l.con.buf)) (λ out. done (record {
  reply = some (long out.0);
  con = record l.con { seek = l.con.seek + (out.1 + 1) + 2 };
  script = l.script;
}))

-- The sizes that are asked for: of a reply, of a string, and of an array.
abbrev pub reply_size : ℕ
reply_size = 16

abbrev pub string_size : ℕ
string_size = 16

unfoldable pub parse_long : (grants : ℕ → Bool) → Script → (start : ℕ) → Connection → Outcome Parsed
parse_long grants script start con =
    if grants reply_size
    then then_do (await_line script start con) (λ a. with_line a long_at)
    else failed con script

-- The cells that are copied to the content, which holds `have` already.
unfoldable pub copied : (have : List ℕ) → (n : ℕ) → (start : ℕ) → Connection → Outcome (List ℕ)
copied have n start con = elim (strncpy n (drop start con.buf)) [
  | none ↦ fault
  | some cells ↦ done (have ++ cells)
]

abbrev pub given_string : Connection → Script → List ℕ → Outcome Parsed
given_string con script content =
    done (record { reply = some (string content); con = con; script = script })

-- `while (read < strlen)`; `have` are the cells that are read.
unfoldable pub read_rest : Script → (strlen : ℕ) → (have : List ℕ) → Connection → Outcome Parsed
read_rest [] strlen have con =
    if ltb (length have) strlen then unfinished else given_string con [] have
read_rest (none ∷ script) strlen have con =
    if ltb (length have) strlen
    then then_do (move_rest con) (λ left. failed left script)
    else given_string con (none ∷ script) have
read_rest (some bytes ∷ script) strlen have con =
    if ltb (length have) strlen
    then then_do (reply_read_more bytes con) (λ more.
      let left = sub_size more.end more.seek in
      if ltb (add_size left (length have)) strlen
      then then_do (copied have left 0 more)
          (λ content. read_rest script strlen content (record more { seek = more.end }))
      else then_do (copied have (strlen - length have) 0 more)
          (given_string (record more { seek = more.seek + (strlen - length have) }) script))
    else given_string con (some bytes ∷ script) have

-- `parse_string` of so many bytes.
unfoldable pub string_of : Script → (strlen : ℕ) → (start : ℕ) → Connection → Outcome Parsed
string_of script strlen start con =
    let left = sub_size con.end con.seek in
    if ltb left strlen
    then then_do (copied [] left start con)
        (λ content. read_rest script strlen content (record con { seek = con.seek + left }))
    else then_do (copied [] strlen start con)
        (given_string (record con { seek = con.seek + strlen + 2 }) script)

-- An `int` as a `size_t`.
abbrev pub to_size : ℤ → ℕ
to_size (pos n) = n
to_size (negsuc n) = size_mod - 1 - n

unfoldable pub parse_string :
    (grants : ℕ → Bool) → Script → (strlen : ℤ) → (start : ℕ) → Connection → Outcome Parsed
parse_string grants script strlen start con =
    if not (grants reply_size)
    then failed con script
    else if same strlen (negsuc 0)
    then done (record { reply = some null; con = con; script = script })
    else if grants string_size && grants (to_size strlen)
    then string_of script (to_size strlen) start con
    else failed con script

-- `parse_single_string`.
unfoldable pub parse_single_string :
    (grants : ℕ → Bool) → Script → (start : ℕ) → Connection → Outcome Parsed
parse_single_string grants script start con =
    then_do (await_line script (start + 1) (record con { seek = con.seek + 1 }))
      (λ a. with_line a (λ l. parse_string grants l.script (pos l.size) l.start l.con))

-- `parse_bulk_string`, once its first line is complete.
unfoldable pub bulk_at : (grants : ℕ → Bool) → Line → Outcome Parsed
bulk_at grants l = then_do (parse_len (drop l.start l.con.buf)) (λ strlen.
    parse_string grants l.script strlen (l.start + l.size + 2)
      (record l.con { seek = l.con.seek + (l.size + 2) }))

unfoldable pub parse_bulk_string :
    (grants : ℕ → Bool) → Script → (start : ℕ) → Connection → Outcome Parsed
parse_bulk_string grants script start con =
    then_do (await_line script start con) (λ a. with_line a (bulk_at grants))
