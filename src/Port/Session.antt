-- ===== src/Port/Session.antt =====
-- A wrapped system call of src/framework.c over the back end of src/port.c.
use eframework.Base.{ℕ, Bool, true, false, List, [], ◌∷◌, ◌||◌, not, ◌≡◌, refl, arith}
use eframework.Base.Int.{ℤ, pos}
use eframework.Structure.Memory.{Outcome, done, fault, unfinished}
use eframework.Structure.BufferIo.{Answer, answer}
use eframework.Framework.Wrapped
use eframework.Framework.Wrapped.{
  Call, Returned, after, Operation, wanted, ready, failing, stored, would_block, leave, attempt,
  woken, wait_event, routine_io,
}
use eframework.Framework.Wrapped.Served.{Blocks, IsSignal, woken_signal, attempt_block}
use eframework.Port.{Kernel, IsOneShot, associate, dissociate, unset}

module _ {K : Type 0} (kernel : Kernel K) (ptr fd : ℕ) where
  -- What a call makes of the port; the event that ends a sleep is handed out by it.
  unfoldable pub perform : Call → K → K
  unfolding associate dissociate unset
  perform (Wrapped.associate f events retval) k = (associate kernel k f events ptr false).1
  perform (Wrapped.reassociate f events) k = (associate kernel k f events ptr true).1
  perform (Wrapped.unset f events) k = (unset kernel k f events).1
  perform (Wrapped.dissociate f fired onclose) k = (dissociate kernel k f fired onclose).1
  perform (Wrapped.yield events) k = kernel.fire k fd
  perform _ k = k

  -- Whether the coroutine sleeps at some time while the port does not hold its descriptor.
  unfoldable pub sleeps_forever : List Call → K → Bool
  unfolding perform
  sleeps_forever [] k = false
  sleeps_forever (Wrapped.yield events ∷ calls) k =
      not (kernel.holds k fd) || sleeps_forever calls (kernel.fire k fd)
  sleeps_forever (c ∷ calls) k = sleeps_forever calls (perform c k)

  -- The run sleeps so, if it returns.
  abbrev pub Sleeps : K → Outcome Returned → Type 0
  Sleeps k (done r) = sleeps_forever r.calls k ≡ true
  Sleeps k fault = Unit
  Sleeps k unfinished = Unit

  begun-Sleeps :
      IsOneShot kernel
      → (op : Operation) (k : K) (first second : ℕ) (got : ℤ) (blocked : ℕ) (o : Outcome Returned)
      → Sleeps k (
          after (Wrapped.target fd ∷ Wrapped.associate fd (wanted op) (pos 0) ∷ []) (
            after (Wrapped.yield first ∷ []) (
              after
                (Wrapped.transfer fd got blocked ∷ Wrapped.unset fd (ready op) ∷ [])
                (after (Wrapped.yield second ∷ []) o))))
  unfolding sleeps_forever perform unset
  begun-Sleeps one_shot op k first second got blocked (done r) =
      let gone = one_shot (perform (Wrapped.associate fd (wanted op) (pos 0)) k) fd in
      ground (arith, gone)
  begun-Sleeps one_shot op k first second got blocked fault = tt
  begun-Sleeps one_shot op k first second got blocked unfinished = tt

pub wait_again :
    (op : Operation) (fd : ℕ) (second : ℕ) (events : List ℕ) (answers : List Answer) (retval : ℤ)
    → (o : Outcome Returned) × (wait_event op fd (second ∷ events) answers retval
        ≡ after (Wrapped.yield second ∷ []) o)
unfolding wait_event
wait_again op fd second events [] retval = (_, refl)
wait_again op fd second events (answer got errno ∷ answers) retval = (_, refl)

-- `ef_routine_read`, `ef_routine_write`, `ef_routine_recv` and `ef_routine_send` over the back end
-- of port.c, on a port that drops a descriptor when it hands out an event of it: if the first
-- wake-up says that the descriptor is ready, and the operation would block nevertheless, the
-- coroutine sleeps again on a descriptor that the port does not hold.
pub routine_io-Sleeps :
    {K : Type 0} (kernel : Kernel K)
    → IsOneShot kernel
    → (op : Operation) (fd errno ptr first second : ℕ) (events : List ℕ) (got : ℤ) (blocked : ℕ)
      (answers : List Answer) (k : K)
    → IsSignal op first
    → Blocks op (answer got blocked)
    → Sleeps kernel ptr fd k (
        routine_io op fd
          (answer (pos 0) errno)
          (first ∷ second ∷ events)
          (answer got blocked ∷ answers))
unfolding routine_io wait_event
routine_io-Sleeps kernel one_shot op fd errno ptr first second events got blocked answers k s b =
    let (o, e) = wait_again op fd second events answers (stored op got) in
    rw (woken_signal op fd (pos 0) first _ s, attempt_block op fd got blocked _ b, e)
      (begun-Sleeps kernel ptr fd one_shot op k first second got blocked o)
