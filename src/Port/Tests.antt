-- ===== src/Port/Tests.antt =====
-- Runs of src/port.c on small inputs, over a kernel that holds at most one descriptor.
use eframework.Base.{◌≡◌, refl, Bool, true, false, List, [], ◌∷◌, if◌then◌else◌}
use eframework.Base.Int.{pos, negsuc}
use eframework.Structure.BufferIo.{answer}
use eframework.Framework.Wrapped.{read, routine_io, stored}
use eframework.Epoll.{Event}
use eframework.Port.{Kernel, IsOneShot, wait}
use eframework.Port.Session.{Sleeps, routine_io-Sleeps}

abbrev one_place : Kernel Bool
one_place = record {
  port_associate = λ k fd e. (pos 0, true);
  port_dissociate = λ k fd. (if k then pos 0 else negsuc 0, false);
  holds = λ k fd. k;
  fire = λ k fd. false;
}

one_place-IsOneShot : IsOneShot one_place
one_place-IsOneShot k fd = refl

routine_io-Sleeps_example : Sleeps one_place 1 7 false (
    routine_io read 7
      (answer (pos 0) 0)
      (1 ∷ 1 ∷ [])
      (answer (negsuc 0) 11 ∷ answer (pos 5) 0 ∷ []))
unfolding stored
routine_io-Sleeps_example =
    routine_io-Sleeps one_place one_place-IsOneShot read 7 0 1 1 1 [] (negsuc 0) 11
      (answer (pos 5) 0 ∷ []) false refl refl

abbrev one_event : List Event
one_event = record { events = 1; ptr = 9 } ∷ []

wait_one : wait 128 1024 1000 (λ n t. (pos 0, 0, 1, one_event)) ≡ (pos 1, one_event)
unfolding wait
wait_one = refl
