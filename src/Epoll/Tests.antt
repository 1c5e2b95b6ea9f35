-- ===== src/Epoll/Tests.antt =====
-- Runs of src/epoll.c on small inputs, over a kernel that is a function.
use eframework.Base.{
  ℕ, ◌≡◌, refl, true, false, Option, none, some, List, [], ◌∷◌, ◌==◌, if◌then◌else◌, arith,
}
use eframework.Base.Int.{ℤ, pos, negsuc, less}
use eframework.Structure.BufferIo.{answer}
use eframework.Framework.Wrapped.{read, routine_io, wanted}
use eframework.Epoll.{Event, Kernel, IsTable, associate, wait}
use eframework.Epoll.Session.{Restores, routine_io-Restores}

abbrev Objects : Type 0
Objects = ℕ → Option Event

abbrev added : Option Event → Objects → ℕ → Event → ℤ × Objects
added (some old) k fd e = (negsuc 0, k)
added none k fd e = (pos 0, λ x. if x == fd then some e else k x)

abbrev deleted : Option Event → Objects → ℕ → ℤ × Objects
deleted none k fd = (negsuc 0, k)
deleted (some old) k fd = (pos 0, λ x. if x == fd then none else k x)

abbrev functions : Kernel Objects
functions = record {
  add = λ k fd e. added (k fd) k fd e;
  delete = λ k fd. deleted (k fd) k fd;
  lookup = λ k fd. k fd;
}

added_fails :
    (o : Option Event) (k : Objects) (fd : ℕ) (e : Event)
    → less (added o k fd e).0 (pos 0) ≡ true
    → (added o k fd e).1 ≡ k
added_fails (some old) k fd e h = refl
added_fails none k fd e h = absurd (ground (arith, h))

added_succeeds :
    (o : Option Event) (k : Objects) (fd : ℕ) (e : Event)
    → less (added o k fd e).0 (pos 0) ≡ false
    → ((added o k fd e).0 ≡ pos 0)
      × ((x : ℕ) → (added o k fd e).1 x ≡ (if x == fd then some e else k x))
added_succeeds (some old) k fd e h = absurd (ground (arith, h))
added_succeeds none k fd e h = (refl, λ x. refl)

functions-IsTable : IsTable functions
functions-IsTable = record {
  add_fails = λ k fd e h. added_fails (k fd) k fd e h;
  add_succeeds = λ k fd e h. (added_succeeds (k fd) k fd e h).1;
  add_returns = λ k fd e h. (added_succeeds (k fd) k fd e h).0;
  delete_there = λ k fd e h x. rw h refl;
}

routine_io-Restores_example :
    Restores functions 1
      (λ _. none)
      (routine_io read 7
        (answer (associate functions (λ _. none) 7 (wanted read) 1 false).0 0)
        (1 ∷ 1 ∷ [])
        (answer (negsuc 0) 11 ∷ answer (pos 5) 0 ∷ []))
routine_io-Restores_example =
    routine_io-Restores functions 1 functions-IsTable read 7 0 (λ _. none) (1 ∷ 1 ∷ [])
      (answer (negsuc 0) 11 ∷ answer (pos 5) 0 ∷ []) refl

abbrev one_event : List Event
one_event = record { events = 1; ptr = 9 } ∷ []

wait_one : wait 128 1024 (λ n. (pos 1, one_event)) ≡ (pos 1, one_event)
unfolding wait
wait_one = refl
