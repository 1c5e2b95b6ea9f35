-- ===== src/Framework/Wrapped/Served.antt =====
-- What a wrapped operation makes of the kernel's answers.
use eframework.Base.{
  ℕ, zero, suc, ◌<◌, true, false, List, [], ◌∷◌, ◌++◌, length, All, ◌==◌, if◌then◌else◌, bit_and,
  ◌≡◌, refl, inl, inr, arith, Bool-cases, ltb,
}
use eframework.Base.Int.{ℤ, pos, less}
use eframework.Structure.Memory.{Outcome, done, fault, unfinished}
use eframework.Structure.BufferIo.{Answer, answer}
use eframework.Framework.Wrapped.{
  Call, target, associate, yield, transfer, unset, dissociate, Returned, after, Operation, wanted,
  failing, ready, stored, would_block, leave, attempt, woken, wait_event, at_once, routine_io,
}
use eframework.Framework.Wrapped.Protocol.{is_signal}

-- The kernel's answer is that the operation would block.
abbrev pub Blocks : Operation → Answer → Type 0
Blocks op (answer got errno) = would_block (stored op got) errno ≡ true

abbrev pub Passes : Operation → Answer → Type 0
Passes op (answer got errno) = would_block (stored op got) errno ≡ false

-- A run that returns, and not with EAGAIN.
abbrev pub Ends : Outcome Returned → Type 0
Ends (done r) = would_block r.retval r.errno ≡ false
Ends fault = ⊥
Ends unfinished = ⊥

after-Ends : (calls : List Call) (o : Outcome Returned) → Ends o → Ends (after calls o)
after-Ends calls (done r) h = h
after-Ends calls fault h = h
after-Ends calls unfinished h = h

leave-Ends :
    (fd : ℕ) (retval : ℤ) (error : ℕ)
    → would_block retval error ≡ false
    → Ends (leave fd retval error)
unfolding leave
leave-Ends fd retval error h = h

attempt-Ends :
    (op : Operation) (fd : ℕ) (a : Answer) (again : Outcome Returned)
    → Passes op a
    → Ends (attempt op fd a again)
unfolding attempt
attempt-Ends op fd (answer got errno) again h = rw h (
    after-Ends (transfer fd got errno ∷ []) (leave fd (stored op got) _)
      (leave-Ends fd (stored op got) _ (ground (arith, h))))

attempt-Blocks :
    (op : Operation) (fd : ℕ) (a : Answer) (again : Outcome Returned)
    → Blocks op a
    → Ends again
    → Ends (attempt op fd a again)
unfolding attempt
attempt-Blocks op fd (answer got errno) again h k =
    rw h (after-Ends (transfer fd got errno ∷ unset fd (ready op) ∷ []) again k)

woken-Ends :
    (op : Operation) (fd : ℕ) (retval : ℤ) (e : ℕ) (go_on : Outcome Returned)
    → Ends go_on
    → Ends (after (yield e ∷ []) (woken op fd retval e go_on))
unfolding woken leave
woken-Ends op fd retval e go_on h = elim (Bool-cases (bit_and e (failing op) == 0)) [
  | inl p ↦ elim (Bool-cases (bit_and e (ready op) == 0)) [
    | inl q ↦ rw (p, q) (ground arith)
    | inr q ↦ rw (p, q) (after-Ends (yield e ∷ []) go_on h)
  ]
  | inr p ↦ rw p (ground arith)
]

wait_event-Ends :
    (op : Operation) (fd : ℕ) (events : List ℕ) (blocks : List Answer) (final : Answer)
    (rest : List Answer) (retval : ℤ)
    → All (Blocks op) blocks
    → Passes op final
    → length blocks < length events
    → Ends (wait_event op fd events (blocks ++ (final ∷ rest)) retval)
unfolding wait_event
wait_event-Ends op fd [] blocks final rest retval b p h = absurd (omega arith)
wait_event-Ends op fd (e ∷ events) [] (answer got errno) rest retval b p h =
    woken-Ends op fd retval e _ (attempt-Ends op fd (answer got errno) _ p)
wait_event-Ends op fd (e ∷ events) (answer got errno ∷ blocks) final rest retval b p h =
    woken-Ends op fd retval e _ (
      attempt-Blocks op fd (answer got errno) _ b.0
        (wait_event-Ends op fd events blocks final rest (stored op got) b.1 p (omega arith)))

at_once-Ends :
    (op : Operation) (fd : ℕ) (events : List ℕ) (blocks : List Answer) (final : Answer)
    (rest : List Answer)
    → All (Blocks op) blocks
    → Passes op final
    → length blocks < length events
    → Ends (at_once op fd events (blocks ++ (final ∷ rest)))
unfolding at_once
at_once-Ends op fd events [] (answer got errno) rest b p h =
    attempt-Ends op fd (answer got errno) _ p
at_once-Ends op fd events (answer got errno ∷ blocks) final rest b p h =
    attempt-Blocks op fd (answer got errno) _ b.0
      (wait_event-Ends op fd events blocks final rest (stored op got) b.1 p (omega arith))

-- The body of `ef_routine_read`, `ef_routine_write`, `ef_routine_recv` and `ef_routine_send`, for
-- a descriptor that could be associated: if the kernel says a number of times that the operation
-- would block and then something else, and there are more wake-ups than that, whatever events they
-- bring, the call returns, and never with EAGAIN.
pub routine_io-Ends :
    (op : Operation) (fd n errno : ℕ) (events : List ℕ) (blocks : List Answer) (final : Answer)
    (rest : List Answer)
    → All (Blocks op) blocks
    → Passes op final
    → length blocks < length events
    → Ends (routine_io op fd (answer (pos n) errno) events (blocks ++ (final ∷ rest)))
unfolding routine_io
routine_io-Ends op fd zero errno events blocks final rest b p h =
    let begun = target fd ∷ associate fd (wanted op) (pos 0) ∷ [] in
    after-Ends begun _ (wait_event-Ends op fd events blocks final rest (pos 0) b p h)
routine_io-Ends op fd (suc n) errno events blocks final rest b p h =
    let above : ltb (suc n) 0 ≡ false = ground arith in
    let positive : ltb 0 (suc n) ≡ true = ground arith in
    let begun = target fd ∷ associate fd (wanted op) (pos (suc n)) ∷ [] in
    rw (above, positive) (after-Ends begun _ (at_once-Ends op fd events blocks final rest b p h))

-- What is done for answers that block and a last one, each after a yield.
abbrev pub exchange : Operation → (fd : ℕ) → (events : List ℕ) → List Answer → Answer → List Call
exchange op fd [] blocks final = []
exchange op fd (e ∷ events) [] (answer got errno) =
    yield e ∷ transfer fd got errno ∷ dissociate fd true false ∷ []
exchange op fd (e ∷ events) (answer got errno ∷ blocks) final =
    yield e ∷ transfer fd got errno ∷ unset fd (ready op) ∷ exchange op fd events blocks final

-- `errno` after the answer.
abbrev pub reported : Operation → Answer → ℕ
reported op (answer got errno) = if less (stored op got) (pos 0) then errno else 0

abbrev pub result : Operation → Answer → ℤ
result op (answer got errno) = stored op got

abbrev pub IsSignal : Operation → ℕ → Type 0
IsSignal op e = is_signal op e ≡ true

pub woken_signal :
    (op : Operation) (fd : ℕ) (retval : ℤ) (e : ℕ) (go_on : Outcome Returned)
    → IsSignal op e
    → woken op fd retval e go_on ≡ go_on
unfolding woken
woken_signal op fd retval e go_on h = ground (arith, h)

attempt_pass :
    (op : Operation) (fd : ℕ) (got : ℤ) (errno : ℕ) (again : Outcome Returned)
    → Passes op (answer got errno)
    → attempt op fd (answer got errno) again
      ≡ done (record {
        retval = stored op got;
        errno = reported op (answer got errno);
        calls = transfer fd got errno ∷ dissociate fd true false ∷ [];
      })
unfolding attempt leave
attempt_pass op fd got errno again h = rw h refl

pub attempt_block :
    (op : Operation) (fd : ℕ) (got : ℤ) (errno : ℕ) (again : Outcome Returned)
    → Blocks op (answer got errno)
    → attempt op fd (answer got errno) again
      ≡ after (transfer fd got errno ∷ unset fd (ready op) ∷ []) again
unfolding attempt
attempt_block op fd got errno again h = rw h refl

wait_event_lem :
    (op : Operation) (fd : ℕ) (events : List ℕ) (blocks : List Answer) (final : Answer)
    (rest : List Answer) (retval : ℤ)
    → All (IsSignal op) events
    → All (Blocks op) blocks
    → Passes op final
    → length blocks < length events
    → wait_event op fd events (blocks ++ (final ∷ rest)) retval
      ≡ done (record {
        retval = result op final;
        errno = reported op final;
        calls = exchange op fd events blocks final;
      })
unfolding wait_event
wait_event_lem op fd [] blocks final rest retval s b p h = absurd (omega arith)
wait_event_lem op fd (e ∷ events) [] (answer got errno) rest retval s b p h =
    rw (woken_signal op fd retval e _ s.0, attempt_pass op fd got errno _ p) refl
wait_event_lem op fd (e ∷ events) (answer got errno ∷ blocks) final rest retval s b p h =
    rw
      (
        woken_signal op fd retval e _ s.0,
        attempt_block op fd got errno _ b.0,
        wait_event_lem op fd events blocks final rest (stored op got) s.1 b.1 p (omega arith),
      )
      refl

-- The four wrapped operations on a descriptor that is associated and not yet ready, if each wake-
-- up says that it is ready and nothing has failed: after a number of answers that the operation
-- would block, each of which is unset and slept over, the next answer is returned, with its
-- `errno` if it is an error and 0 otherwise, and nothing else is done to the descriptor.
pub routine_io_lem :
    (op : Operation) (fd errno : ℕ) (events : List ℕ) (blocks : List Answer) (final : Answer)
    (rest : List Answer)
    → All (IsSignal op) events
    → All (Blocks op) blocks
    → Passes op final
    → length blocks < length events
    → routine_io op fd (answer (pos 0) errno) events (blocks ++ (final ∷ rest))
      ≡ done (record {
        retval = result op final;
        errno = reported op final;
        calls = target fd ∷ associate fd (wanted op) (pos 0) ∷ exchange op fd events blocks final;
      })
unfolding routine_io
routine_io_lem op fd errno events blocks final rest s b p h =
    rw (wait_event_lem op fd events blocks final rest (pos 0) s b p h) refl

-- If a wake-up brings neither an event that fails the operation nor one that it waits for, such as
-- POLLNVAL, the four wrapped operations return 0 with `errno` 0, as at the end of a stream, and
-- have not asked the kernel.
pub routine_io_unknown :
    (op : Operation) (fd errno e : ℕ) (events : List ℕ) (answers : List Answer)
    → bit_and e (failing op) ≡ 0
    → bit_and e (ready op) ≡ 0
    → routine_io op fd (answer (pos 0) errno) (e ∷ events) answers
      ≡ done (record {
        retval = pos 0;
        errno = 0;
        calls =
            target fd ∷ associate fd (wanted op) (pos 0) ∷ yield e ∷ dissociate fd true false ∷ [];
      })
unfolding routine_io wait_event woken leave
routine_io_unknown op fd errno e events [] p q = rw (p, q) refl
routine_io_unknown op fd errno e events (answer got x ∷ answers) p q = rw (p, q) refl
