-- ===== src/Framework/Wrapped/Protocol.antt =====
-- What the back end and the kernel are promised: which calls of the wrapped operations may follow each
-- other.
use eframework.Base.{
  ℕ, Bool, true, false, not, ◌&&◌, List, [], ◌∷◌, ◌++◌, ◌==◌, if◌then◌else◌, bit_and, Option, none,
  some, ◌≡◌, refl, inl, inr, arith, ltb, Bool-cases, zero, suc,
}
use eframework.Base.Int.{ℤ, pos, negsuc, less}
use eframework.Structure.Memory.{Outcome, done, fault, unfinished}
use eframework.Structure.BufferIo.{Answer, answer}
use eframework.Framework.Wrapped.{
  Call, target, associate, yield, transfer, unset, dissociate, Returned, after, Operation, wanted,
  failing, ready, stored, would_block, leave, attempt, woken, wait_event, at_once, routine_io,
  ebadf,
}

-- How a descriptor stands with the back end: not associated, associated and not known to be ready,
-- known to be ready, or known not to be ready while the back end still says that it is.
pub data Standing : Type 0 where
  free waiting signalled stale : Standing

-- Whether events say that the operation may be tried.
abbrev pub is_signal : Operation → ℕ → Bool
is_signal op events = (bit_and events (failing op) == 0) && not (bit_and events (ready op) == 0)

abbrev pub associated : ℤ → Standing
associated (negsuc n) = free
associated (pos zero) = waiting
associated (pos (suc n)) = signalled

-- The kernel is asked only of a ready descriptor, a coroutine sleeps only on one that is not, what has
-- turned out to be stale is unset first, and the end of the association is not that of a close.
abbrev pub advance : Operation → (fd : ℕ) → Standing → Call → Option Standing
advance op fd free (target f) = if f == fd then some free else none
advance op fd free (associate f events retval) =
    if (f == fd) && (events == wanted op) then some (associated retval) else none
advance op fd waiting (yield events) = some (if is_signal op events then signalled else waiting)
advance op fd signalled (transfer f got errno) =
    if f == fd then some (if would_block (stored op got) errno then stale else waiting) else none
advance op fd stale (unset f events) =
    if (f == fd) && (events == ready op) then some waiting else none
advance op fd waiting (dissociate f true false) = if f == fd then some free else none
advance op fd _ _ = none

abbrev pub then_follow : (Standing → Option Standing) → Option Standing → Option Standing
then_follow f none = none
then_follow f (some s) = f s

unfoldable pub follow : Operation → (fd : ℕ) → List Call → Standing → Option Standing
follow op fd [] s = some s
follow op fd (c ∷ calls) s = then_follow (follow op fd calls) (advance op fd s c)

-- A run that has returned has kept to the protocol and left the descriptor free.
unfoldable pub Kept : Operation → (fd : ℕ) → Standing → Outcome Returned → Type 0
unfolding follow
Kept op fd s (done r) = follow op fd r.calls s ≡ some free
Kept op fd s fault = ⊥
Kept op fd s unfinished = Unit

follow-append :
    (op : Operation) (fd : ℕ) (xs ys : List Call) (s : Standing)
    → follow op fd (xs ++ ys) s ≡ then_follow (follow op fd ys) (follow op fd xs s)
unfolding follow
follow-append op fd [] ys s = refl
follow-append op fd (x ∷ xs) ys s =
    elim (advance op fd s x)
      as (λ o.
        then_follow (follow op fd (xs ++ ys)) o
        ≡ then_follow (follow op fd ys) (then_follow (follow op fd xs) o)) [
          | none ↦ refl
          | some t ↦ follow-append op fd xs ys t
        ]

-- A run that starts with calls of the protocol.
pub after-Kept :
    (op : Operation) (fd : ℕ) (calls : List Call) (s t : Standing) (o : Outcome Returned)
    → follow op fd calls s ≡ some t
    → Kept op fd t o
    → Kept op fd s (after calls o)
unfolding Kept
after-Kept op fd calls s t (done r) h k = rw (follow-append, h) k
after-Kept op fd calls s t fault h k = k
after-Kept op fd calls s t unfinished h k = tt

pub leave-Kept :
    (op : Operation) (fd : ℕ) (retval : ℤ) (error : ℕ) → Kept op fd waiting (leave fd retval error)
unfolding leave follow Kept
leave-Kept op fd retval error = ground arith

attempt-Kept :
    (op : Operation) (fd : ℕ) (a : Answer) (again : Outcome Returned)
    → Kept op fd waiting again
    → Kept op fd signalled (attempt op fd a again)
unfolding attempt
attempt-Kept op fd (answer got errno) again k =
    elim (Bool-cases (would_block (stored op got) errno)) [
      | inl e ↦
          let back = transfer fd got errno ∷ unset fd (ready op) ∷ [] in
          rw e (after-Kept op fd back signalled waiting again (unfold follow in ground arith) k)
      | inr e ↦
          let tried = transfer fd got errno ∷ [] in
          let error = if less (stored op got) (pos 0) then errno else 0 in
          let left = leave fd (stored op got) error in
          rw e (
            after-Kept op fd tried signalled waiting left (unfold follow in ground arith)
              (leave-Kept op fd _ error))
    ]

woken-Kept :
    (op : Operation) (fd : ℕ) (retval : ℤ) (e : ℕ) (go_on : Outcome Returned)
    → Kept op fd signalled go_on
    → Kept op fd waiting (after (yield e ∷ []) (woken op fd retval e go_on))
unfolding woken
woken-Kept op fd retval e go_on k = elim (Bool-cases (bit_and e (failing op) == 0)) [
  | inl p ↦ elim (Bool-cases (bit_and e (ready op) == 0)) [
    | inl q ↦
        rw (p, q)
          (after-Kept op fd (yield e ∷ []) waiting waiting _ (unfold follow in ground arith)
            (leave-Kept op fd retval 0))
    | inr q ↦
        rw (p, q)
          (after-Kept op fd (yield e ∷ []) waiting signalled go_on (unfold follow in ground arith)
            k)
  ]
  | inr p ↦ rw p (
      after-Kept op fd (yield e ∷ []) waiting waiting _ (unfold follow in ground arith)
        (leave-Kept op fd (negsuc 0) ebadf))
]

wait_event-Kept :
    (op : Operation) (fd : ℕ) (events : List ℕ) (answers : List Answer) (retval : ℤ)
    → Kept op fd waiting (wait_event op fd events answers retval)
unfolding wait_event
wait_event-Kept op fd [] answers retval = unfold Kept in tt
wait_event-Kept op fd (e ∷ events) [] retval =
    woken-Kept op fd retval e unfinished (unfold Kept in tt)
wait_event-Kept op fd (e ∷ events) (answer got errno ∷ answers) retval =
    woken-Kept op fd retval e _ (
      attempt-Kept op fd (answer got errno) _
        (wait_event-Kept op fd events answers (stored op got)))

at_once-Kept :
    (op : Operation) (fd : ℕ) (events : List ℕ) (answers : List Answer)
    → Kept op fd signalled (at_once op fd events answers)
unfolding at_once
at_once-Kept op fd events [] = unfold Kept in tt
at_once-Kept op fd events (answer got errno ∷ answers) =
    attempt-Kept op fd (answer got errno) _ (wait_event-Kept op fd events answers (stored op got))

-- Whatever the kernel answers, the four wrapped operations do not fail, and each that returns has
-- kept to the protocol: the kernel is asked only after the association or a wake-up has said that
-- the descriptor is ready and nothing has failed, the coroutine sleeps only on a descriptor that
-- is not known to be ready, what has turned out to block is unset first, and the descriptor is
-- dissociated in the end if and only if its association has succeeded.
pub routine_io-Kept :
    (op : Operation) (fd : ℕ) (association : Answer) (events : List ℕ) (answers : List Answer)
    → Kept op fd free (routine_io op fd association events answers)
unfolding routine_io
routine_io-Kept op fd (answer (negsuc n) errno) events answers = unfold Kept follow in ground arith
routine_io-Kept op fd (answer (pos zero) errno) events answers =
    let begun = target fd ∷ associate fd (wanted op) (pos 0) ∷ [] in
    after-Kept op fd begun free waiting _ (unfold follow in ground arith)
      (wait_event-Kept op fd events answers (pos 0))
routine_io-Kept op fd (answer (pos (suc n)) errno) events answers =
    let begun = target fd ∷ associate fd (wanted op) (pos (suc n)) ∷ [] in
    let above : ltb (suc n) 0 ≡ false = ground arith in
    let positive : ltb 0 (suc n) ≡ true = ground arith in
    rw (above, positive)
      (after-Kept op fd begun free signalled _ (unfold follow in ground arith)
        (at_once-Kept op fd events answers))
