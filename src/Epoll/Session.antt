-- ===== src/Epoll/Session.antt =====
-- A wrapped system call of src/framework.c over the back end of src/epoll.c.
use eframework.Base.{
  ℕ, true, false, List, [], ◌∷◌, ◌++◌, ◌==◌, if◌then◌else◌, bit_and, none, some, ◌≡◌, refl, inl,
  inr, arith, Bool-cases,
}
use eframework.Base.Int.{ℤ, pos, negsuc, less}
use eframework.Structure.Memory.{Outcome, done, fault, unfinished}
use eframework.Structure.BufferIo.{Answer, answer}
use eframework.Framework.Wrapped
use eframework.Framework.Wrapped.{
  Call, target, yield, transfer, Returned, after, Operation, wanted, failing, ready, stored,
  would_block, leave, attempt, woken, wait_event, at_once, routine_io,
}
use eframework.Epoll.{Event, Kernel, IsTable, associate, dissociate, unset}

module _ {K : Type 0} (kernel : Kernel K) (ptr : ℕ) where
  -- What a call makes of the kernel's object.
  unfoldable pub perform : Call → K → K
  unfolding associate dissociate unset
  perform (Wrapped.associate fd events retval) k = (associate kernel k fd events ptr false).1
  perform (Wrapped.reassociate fd events) k = (associate kernel k fd events ptr true).1
  perform (Wrapped.unset fd events) k = (unset kernel k fd events).1
  perform (Wrapped.dissociate fd fired onclose) k = (dissociate kernel k fd fired onclose).1
  perform _ k = k

  unfoldable pub replay : List Call → K → K
  unfolding perform
  replay [] k = k
  replay (c ∷ calls) k = replay calls (perform c k)

  replay-append : (xs ys : List Call) (k : K) → replay (xs ++ ys) k ≡ replay ys (replay xs k)
  unfolding replay
  replay-append [] ys k = refl
  replay-append (x ∷ xs) ys k = replay-append xs ys (perform x k)

  -- A run that returns has, after all, deleted the descriptor.
  Deletes : (fd : ℕ) → K → Outcome Returned → Type 0
  Deletes fd k (done r) = replay r.calls k ≡ (kernel.delete k fd).1
  Deletes fd k fault = Unit
  Deletes fd k unfinished = Unit

  after-Deletes :
      (fd : ℕ) (k : K) (calls : List Call) (o : Outcome Returned)
      → replay calls k ≡ k
      → Deletes fd k o
      → Deletes fd k (after calls o)
  unfolding Deletes
  after-Deletes fd k calls (done r) e h = rw (replay-append, e) h
  after-Deletes fd k calls fault e h = tt
  after-Deletes fd k calls unfinished e h = tt

  leave-Deletes : (fd : ℕ) (k : K) (retval : ℤ) (error : ℕ) → Deletes fd k (leave fd retval error)
  unfolding Deletes leave replay perform dissociate
  leave-Deletes fd k retval error = refl

  attempt-Deletes :
      (op : Operation) (fd : ℕ) (k : K) (a : Answer) (again : Outcome Returned)
      → Deletes fd k again
      → Deletes fd k (attempt op fd a again)
  unfolding attempt
  attempt-Deletes op fd k (answer got errno) again h =
      elim (Bool-cases (would_block (stored op got) errno)) [
        | inl e ↦
            let back = transfer fd got errno ∷ Wrapped.unset fd (ready op) ∷ [] in
            rw e (after-Deletes fd k back again (unfold replay perform unset in refl) h)
        | inr e ↦
            let error = if less (stored op got) (pos 0) then errno else 0 in
            rw e (
              after-Deletes fd k (transfer fd got errno ∷ []) (leave fd (stored op got) error)
                (unfold replay perform in refl) (leave-Deletes fd k (stored op got) error))
      ]

  woken-Deletes :
      (op : Operation) (fd : ℕ) (k : K) (retval : ℤ) (e : ℕ) (go_on : Outcome Returned)
      → Deletes fd k go_on
      → Deletes fd k (woken op fd retval e go_on)
  unfolding woken
  woken-Deletes op fd k retval e go_on h = elim (Bool-cases (bit_and e (failing op) == 0)) [
    | inl p ↦ elim (Bool-cases (bit_and e (ready op) == 0)) [
      | inl q ↦ rw (p, q) (leave-Deletes fd k retval 0)
      | inr q ↦ rw (p, q) h
    ]
    | inr p ↦ rw p (leave-Deletes fd k (negsuc 0) 9)
  ]

  wait_event-Deletes :
      (op : Operation) (fd : ℕ) (k : K) (events : List ℕ) (answers : List Answer) (retval : ℤ)
      → Deletes fd k (wait_event op fd events answers retval)
  unfolding wait_event
  wait_event-Deletes op fd k [] answers retval = unfold Deletes in tt
  wait_event-Deletes op fd k (e ∷ events) [] retval =
      after-Deletes fd k (yield e ∷ []) _ (unfold replay perform in refl)
        (woken-Deletes op fd k retval e unfinished (unfold Deletes in tt))
  wait_event-Deletes op fd k (e ∷ events) (answer got errno ∷ answers) retval =
      after-Deletes fd k (yield e ∷ []) _ (unfold replay perform in refl) (
        woken-Deletes op fd k retval e _ (
          attempt-Deletes op fd k (answer got errno) _
            (wait_event-Deletes op fd k events answers (stored op got))))

  -- A run that returns has left the kernel's object as it was.
  abbrev pub Restores : K → Outcome Returned → Type 0
  Restores k (done r) = (x : ℕ) → kernel.lookup (replay r.calls k) x ≡ kernel.lookup k x
  Restores k fault = Unit
  Restores k unfinished = Unit

  added-Restores :
      IsTable kernel
      → (fd : ℕ) (k : K) (e : Event) (calls : List Call) (o : Outcome Returned)
      → kernel.lookup k fd ≡ none
      → less (kernel.add k fd e).0 (pos 0) ≡ false
      → replay calls k ≡ (kernel.add k fd e).1
      → Deletes fd (kernel.add k fd e).1 o
      → Restores k (after calls o)
  unfolding Deletes
  added-Restores table fd k e calls fault free ok begun d = tt
  added-Restores table fd k e calls unfinished free ok begun d = tt
  added-Restores table fd k e calls (done r) free ok begun d = λ x.
      let there : kernel.lookup (kernel.add k fd e).1 fd ≡ some e =
        ground (arith, table.add_succeeds k fd e ok fd) in
      let gone = table.delete_there (kernel.add k fd e).1 fd e there x in
      let same = table.add_succeeds k fd e ok x in
      rw (replay-append, begun, d, gone, same) (ground (arith, free))

  -- `ef_routine_read`, `ef_routine_write`, `ef_routine_recv` and `ef_routine_send` over the back end
  -- of epoll.c, with a kernel whose `epoll_ctl` does what its manual says, for a descriptor that is
  -- not in the kernel's object: whatever the kernel answers to the operation and whatever events
  -- come, a call that returns has left the kernel's object as it was.
  pub routine_io-Restores :
      IsTable kernel
      → (op : Operation) (fd errno : ℕ) (k : K) (events : List ℕ) (answers : List Answer)
      → kernel.lookup k fd ≡ none
      → Restores k (
          routine_io op fd
            (answer (associate kernel k fd (wanted op) ptr false).0 errno)
            events
            answers)
  unfolding associate routine_io replay perform
  routine_io-Restores table op fd errno k events answers free =
      let e : Event = record { events = wanted op; ptr = ptr } in
      elim (Bool-cases (less (kernel.add k fd e).0 (pos 0))) [
        | inl refused ↦
            let kept = table.add_fails k fd e refused in rw (refused) (λ x. rw kept refl)
        | inr ok ↦
            let zero_returned = table.add_returns k fd e ok in
            let begun = target fd ∷ Wrapped.associate fd (wanted op) (pos 0) ∷ [] in
            rw zero_returned (
              added-Restores table fd k e begun (wait_event op fd events answers (pos 0)) free ok
                refl (wait_event-Deletes op fd (kernel.add k fd e).1 events answers (pos 0)))
      ]
