-- ===== src/Framework/Wrapped/Connected.antt =====
-- `ef_routine_connect`, `ef_routine_close` and `ef_proc` of src/framework.c.
use eframework.Base.{
  ℕ, suc, Bool, true, false, not, List, [], ◌∷◌, ◌++◌, ◌==◌, if◌then◌else◌, bit_and, bit_or, ◌≡◌,
  arith, Option, none, some, ◌&&◌, ◌||◌,
}
use eframework.Base.Int.{ℤ, pos, negsuc, less}
use eframework.Structure.BufferIo.{Answer, answer}
use eframework.Framework.Wrapped.{
  Call, target, associate, yield, dissociate, set_nonblock, connect, so_error, close, Returned,
  poll_out, poll_err, poll_hup, ebadf, einprogress,
}

-- What the system answers to a connect: whether O_NONBLOCK is set, `fcntl(F_SETFL)`, `connect`,
-- `associate`, the events that the yield comes back with, and the socket's SO_ERROR.
pub record Network : Type 0 where
  pub nonblock : Bool
  pub set_flags : Answer
  pub connected : Answer
  pub association : Answer
  pub events : ℕ
  pub error : ℕ

-- From the yield on; `retval` is what `associate` returned.
unfoldable pub connecting : (fd : ℕ) → (retval : ℤ) → Network → Returned
connecting fd retval n =
    let asleep = yield n.events ∷ [] in
    let end = dissociate fd true false ∷ [] in
    if not (bit_and n.events (bit_or poll_err poll_hup) == 0)
    then record { retval = negsuc 0; errno = ebadf; calls = asleep ++ end }
    else if not (bit_and n.events poll_out == 0)
    then record { retval = retval; errno = n.error; calls = asleep ++ (so_error fd ∷ end) }
    else record { retval = retval; errno = 0; calls = asleep ++ end }

-- A call that was made before.
abbrev pub before : List Call → Returned → Returned
before calls r = record r { calls = calls ++ r.calls }

unfoldable pub start_waiting : (fd : ℕ) → Answer → Network → Returned
unfolding connecting
start_waiting fd (answer retval errno) n =
    let call = associate fd poll_out retval ∷ [] in
    if less retval (pos 0)
    then record { retval = retval; errno = errno; calls = call }
    else before call (connecting fd retval n)

-- The call of `connect`. `errno` stays as it is where the connection is made at once.
unfoldable pub start_connect : (fd errno : ℕ) → Answer → Network → Returned
unfolding start_waiting
start_connect fd before_errno (answer retval errno) n =
    if less retval (pos 0)
    then if errno == einprogress
      then before (connect fd ∷ []) (start_waiting fd n.association n)
      else record { retval = retval; errno = errno; calls = connect fd ∷ [] }
    else record { retval = retval; errno = before_errno; calls = connect fd ∷ [] }

abbrev pub is_refused : Answer → Bool
is_refused (answer retval errno) = less retval (pos 0)

-- An error with this `errno`.
abbrev pub is_errno : ℕ → Answer → Bool
is_errno e (answer retval errno) = less retval (pos 0) && errno == e

abbrev pub refused : Answer → List Call → Returned
refused (answer retval errno) calls = record { retval = retval; errno = errno; calls = calls }

-- `ef_routine_connect`; `errno` is what it was before.
unfoldable pub routine_connect : (fd errno : ℕ) → Network → Returned
unfolding start_connect
routine_connect fd errno n =
    if n.nonblock
    then before (target fd ∷ []) (start_connect fd errno n.connected n)
    else if is_refused n.set_flags
    then refused n.set_flags (target fd ∷ set_nonblock fd ∷ [])
    else before (target fd ∷ set_nonblock fd ∷ []) (start_connect fd errno n.connected n)

-- `ef_routine_close`: what it does, the result being that of `close`.
unfoldable pub routine_close : (fd : ℕ) → List Call
routine_close fd = dissociate fd false true ∷ close fd ∷ []

-- `ef_proc`: the routine's own procedure, if it has one, is what it returns and what it does.
unfoldable pub proc : Option (ℤ × List Call) → (fd : ℕ) → ℤ × List Call
unfolding routine_close
proc none fd = (pos 0, routine_close fd)
proc (some (retval, calls)) fd = (retval, calls ++ routine_close fd)

-- Whether the descriptor is associated with the back end after some calls.
unfoldable pub associated_after : List Call → Bool → Bool
associated_after [] b = b
associated_after (associate fd events retval ∷ calls) b =
    associated_after calls (not (less retval (pos 0)))
associated_after (dissociate fd fired onclose ∷ calls) b = associated_after calls false
associated_after (_ ∷ calls) b = associated_after calls b

-- How often the coroutine has yielded.
unfoldable pub yields : List Call → ℕ
yields [] = 0
yields (yield e ∷ calls) = suc (yields calls)
yields (_ ∷ calls) = yields calls

-- Whether the connection is under way and can be waited for.
abbrev pub is_pending : Network → Bool
is_pending n =
    (n.nonblock || not (is_refused n.set_flags))
    && (is_errno einprogress n.connected && not (is_refused n.association))

-- `ef_routine_connect` leaves no association behind on any of its ways out, and yields once if the
-- connection is under way and could be associated, and otherwise not at all.
pub routine_connect_lem :
    (fd errno : ℕ) (n : Network)
    → (associated_after (routine_connect fd errno n).calls false ≡ false)
      × (yields (routine_connect fd errno n).calls ≡ (if is_pending n then 1 else 0))
unfolding routine_connect start_connect start_waiting connecting associated_after yields
routine_connect_lem fd errno n = ground arith
