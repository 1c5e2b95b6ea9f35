-- ===== src/Redis/Command.antt =====
-- `ef_redis_cmd` and `ef_redis_get` of src/redis.c. What `ef_wrap_write` returns is a parameter.
use eframework.Base.{
  ℕ, ◌+◌, ◌<◌, ◌≤◌, ◌≡◌, refl, Bool, false, List, [], ◌∷◌, ◌++◌, length, length-append, ltb,
  if◌then◌else◌, arith,
}
use eframework.Base.Int.{ℤ, pos, less}
use eframework.Structure.Memory.{Outcome, done, fault, unfinished, Allocator}
use eframework.Redis.{Connection, Script, Parsed, failed}
use eframework.Redis.Array.{read_reply}

-- The array `cmd`.
abbrev pub cmd_size : ℕ
cmd_size = 1024

-- What was returned, and the bytes that were handed to `ef_wrap_write`.
pub record Command : Type 0 where
  pub retval : ℤ
  pub bytes : List ℕ

-- A text that does not fit, with the zero behind it.
abbrev pub is_long : List ℕ → Bool
is_long text = ltb cmd_size (length text + 1)

-- `ef_redis_cmd`; `formatted` is what `vsprintf` returns and the text that it writes, with a zero behind it.
unfoldable pub cmd : (formatted : ℤ × List ℕ) → (write : List ℕ → ℤ) → Outcome Command
cmd (cmdlen, text) write =
    let line = text ++ (13 ∷ 10 ∷ []) in
    if is_long text
    then fault
    else if less cmdlen (pos 0)
    then done (record { retval = cmdlen; bytes = [] })
    else if is_long line
    then fault
    else done (record { retval = write line; bytes = line })

-- `vsprintf` of "GET %s".
abbrev pub get_text : (key : List ℕ) → ℤ × List ℕ
get_text key = (pos (4 + length key), 71 ∷ 69 ∷ 84 ∷ 32 ∷ key)

-- The reply is read if the command could be sent.
abbrev pub then_read :
    (depth : ℕ) → Allocator → Script → Connection → Outcome Command → Outcome Parsed
then_read depth al script con fault = fault
then_read depth al script con unfinished = unfinished
then_read depth al script con (done c) =
    if less c.retval (pos 0) then failed con script else read_reply depth al script con

-- `ef_redis_get`.
unfoldable pub get :
    (depth : ℕ)
    → Allocator
    → (write : List ℕ → ℤ) → Script
    → (key : List ℕ) → Connection
    → Outcome Parsed
get depth al write script key con = then_read depth al script con (cmd (get_text key) write)

-- `ef_redis_get` of a key of 1018 bytes or more writes behind the array of the command.
redis_get_long :
    (depth : ℕ) (al : Allocator) (write : List ℕ → ℤ) (script : Script) (key : List ℕ)
    (con : Connection)
    → 1018 ≤ length key
    → get depth al write script key con ≡ fault
unfolding get cmd
redis_get_long depth al write script key con long_key =
    let size = length-append key (13 ∷ 10 ∷ []) in ground (arith, size)

-- With a shorter key it sends "GET ", the key and the end of the line, and fails or reads the reply.
redis_get_short :
    (depth : ℕ) (al : Allocator) (write : List ℕ → ℤ) (script : Script) (key : List ℕ)
    (con : Connection)
    → length key < 1018
    → get depth al write script key con ≡ (
        if less (write (71 ∷ 69 ∷ 84 ∷ 32 ∷ (key ++ (13 ∷ 10 ∷ [])))) (pos 0)
        then failed con script
        else read_reply depth al script con)
unfolding get cmd
redis_get_short depth al write script key con short_key =
    let size = length-append key (13 ∷ 10 ∷ []) in
    let text_fits : is_long (71 ∷ 69 ∷ 84 ∷ 32 ∷ key) ≡ false = ground arith in
    let line_fits : is_long (71 ∷ 69 ∷ 84 ∷ 32 ∷ (key ++ (13 ∷ 10 ∷ []))) ≡ false =
      ground (arith, size) in
    let formatted : less (pos (4 + length key)) (pos 0) ≡ false = ground arith in
    rw text_fits (rw formatted (rw line_fits refl))
