-- ===== src/Framework/Wrapped.antt =====
-- The wrapped system calls of src/framework.c. A call is a run over two scripts: the events that each
-- yield comes back with, and the kernel's answers to read, write, recv or send. What the call does to
-- the descriptor is written down in order. A call that waits when a script ends is `unfinished`.
pub mod Protocol
pub mod Served
pub mod Connected
use eframework.Base.{
  ℕ, ◌-◌, ◌+◌, ◌%◌, ◌^◌, Bool, true, false, not, ◌&&◌, List, [], ◌∷◌, ◌++◌, ltb, ◌==◌,
  if◌then◌else◌, bit_and, bit_or, Option, none, some,
}
use eframework.Base.Int.{ℤ, pos, negsuc, less}
use eframework.Structure.Memory.{Outcome, done, fault, unfinished}
use eframework.Structure.BufferIo.{Answer, answer}

abbrev pub poll_in : ℕ
poll_in = 0x001

abbrev pub poll_out : ℕ
poll_out = 0x004

abbrev pub poll_err : ℕ
poll_err = 0x008

abbrev pub poll_hup : ℕ
poll_hup = 0x010

abbrev pub ebadf : ℕ
ebadf = 9

abbrev pub eagain : ℕ
eagain = 11

abbrev pub einprogress : ℕ
einprogress = 115

-- What is done to a descriptor: `target` sets the routine's poll data, `associate` and `transfer`
-- (read, write, recv or send) carry their answer, and `yield` the events that it comes back with.
-- `reassociate` is an association after an event has fired.
pub data Call : Type 0 where
  target : (fd : ℕ) → Call
  associate : (fd events : ℕ) (retval : ℤ) → Call
  reassociate : (fd events : ℕ) → Call
  yield : (events : ℕ) → Call
  transfer : (fd : ℕ) (retval : ℤ) (errno : ℕ) → Call
  unset : (fd events : ℕ) → Call
  dissociate : (fd : ℕ) (fired onclose : Bool) → Call
  set_nonblock : (fd : ℕ) → Call
  connect : (fd : ℕ) → Call
  so_error : (fd : ℕ) → Call
  close : (fd : ℕ) → Call

-- What a wrapped call returns, `errno` after it, and what it did.
pub record Returned : Type 0 where
  pub retval : ℤ
  pub errno : ℕ
  pub calls : List Call

abbrev pub after : List Call → Outcome Returned → Outcome Returned
after calls (done r) = done (record r { calls = calls ++ r.calls })
after calls fault = fault
after calls unfinished = unfinished

pub data Operation : Type 0 where
  read write recv send : Operation

-- The event that the operation is associated with, the events that make it fail, and those that make
-- it go on, which are also the ones that it unsets.
abbrev pub wanted : Operation → ℕ
wanted read = poll_in
wanted recv = poll_in
wanted write = poll_out
wanted send = poll_out

abbrev pub failing : Operation → ℕ
failing read = poll_err
failing recv = poll_err
failing write = bit_or poll_err poll_hup
failing send = bit_or poll_err poll_hup

abbrev pub ready : Operation → ℕ
ready read = bit_or poll_in poll_hup
ready recv = bit_or poll_in poll_hup
ready write = poll_out
ready send = poll_out

-- A `ssize_t` that is stored in an `int`.
unfoldable pub to_int : ℤ → ℤ
to_int (pos n) =
    let low = n % 2 ^ 32 in if ltb low (2 ^ 31) then pos low else negsuc (2 ^ 32 - 1 - low)
to_int (negsuc n) =
    let low = n % 2 ^ 32 in if ltb low (2 ^ 31) then negsuc low else pos (2 ^ 32 - 1 - low)

-- `retval` is a `ssize_t` in `ef_routine_read` and `ef_routine_write` and an `int` in the other two.
unfoldable pub stored : Operation → ℤ → ℤ
unfolding to_int
stored read n = n
stored write n = n
stored recv n = to_int n
stored send n = to_int n

-- `retval < 0 && errno == EAGAIN`
abbrev pub would_block : ℤ → ℕ → Bool
would_block retval errno = less retval (pos 0) && errno == eagain

-- The end of a call that has been associated.
unfoldable pub leave : (fd : ℕ) (retval : ℤ) (error : ℕ) → Outcome Returned
leave fd retval error =
    done (record { retval = retval; errno = error; calls = dissociate fd true false ∷ [] })

-- From `ready:` on, where `again` is what `goto yield` leads to.
unfoldable pub attempt :
    Operation → (fd : ℕ) → Answer → (again : Outcome Returned) → Outcome Returned
attempt op fd (answer got errno) again =
    let retval = stored op got in
    if would_block retval errno
    then after (transfer fd got errno ∷ unset fd (ready op) ∷ []) again
    else after (transfer fd got errno ∷ [])
        (leave fd retval (if less retval (pos 0) then errno else 0))

-- After the yield, where `go_on` is what `ready:` leads to.
unfoldable pub woken :
    Operation
    → (fd : ℕ) → (retval : ℤ) → (events : ℕ) → (go_on : Outcome Returned) → Outcome Returned
woken op fd retval events go_on =
    if not (bit_and events (failing op) == 0)
    then leave fd (negsuc 0) ebadf
    else if not (bit_and events (ready op) == 0)
    then go_on
    else leave fd retval 0

-- From `yield:` on; `retval` is what the variable holds.
unfoldable pub wait_event :
    Operation → (fd : ℕ) → (events : List ℕ) → List Answer → (retval : ℤ) → Outcome Returned
unfolding woken attempt
wait_event op fd [] answers retval = unfinished
wait_event op fd (e ∷ events) [] retval = after (yield e ∷ []) (woken op fd retval e unfinished)
wait_event op fd (e ∷ events) (answer got errno ∷ answers) retval =
    let again = wait_event op fd events answers (stored op got) in
    after (yield e ∷ []) (woken op fd retval e (attempt op fd (answer got errno) again))

-- `goto ready` right after the association.
unfoldable pub at_once : Operation → (fd : ℕ) → (events : List ℕ) → List Answer → Outcome Returned
unfolding attempt wait_event
at_once op fd events [] = unfinished
at_once op fd events (answer got errno ∷ answers) =
    attempt op fd (answer got errno) (wait_event op fd events answers (stored op got))

-- The body that the four calls share; `association` is the answer of `associate`.
unfoldable pub routine_io :
    Operation
    → (fd : ℕ) → (association : Answer) → (events : List ℕ) → List Answer
    → Outcome Returned
routine_io op fd (answer retval errno) events answers =
    let begun = target fd ∷ associate fd (wanted op) retval ∷ [] in
    if less retval (pos 0)
    then done (record { retval = retval; errno = errno; calls = begun })
    else if less (pos 0) retval
    then after begun (at_once op fd events answers)
    else after begun (wait_event op fd events answers retval)

-- `ef_routine_read`, `ef_routine_write`, `ef_routine_recv`, `ef_routine_send`.
unfoldable pub routine_read : (fd : ℕ) → Answer → List ℕ → List Answer → Outcome Returned
unfolding routine_io
routine_read fd association events answers = routine_io read fd association events answers

unfoldable pub routine_write : (fd : ℕ) → Answer → List ℕ → List Answer → Outcome Returned
unfolding routine_io
routine_write fd association events answers = routine_io write fd association events answers

unfoldable pub routine_recv : (fd : ℕ) → Answer → List ℕ → List Answer → Outcome Returned
unfolding routine_io
routine_recv fd association events answers = routine_io recv fd association events answers

unfoldable pub routine_send : (fd : ℕ) → Answer → List ℕ → List Answer → Outcome Returned
unfolding routine_io
routine_send fd association events answers = routine_io send fd association events answers
