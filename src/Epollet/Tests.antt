-- ===== src/Epollet/Tests.antt =====
-- Runs of src/epollet.c on small inputs.
use eframework.Base.{◌≡◌, refl, true, none, some, [], ◌∷◌, arith, ◌==◌, if◌then◌else◌}
use eframework.Table.{update, vacant}
use eframework.Epollet.{
  create, Epoll, IsValid, FillIsReady, expand, associate, dissociate, unset, failed,
}
use eframework.Epollet.Lookup.{lookup}
use eframework.Epollet.Contract.{Gives, registered, asked_for, epollet_associate-Gives}
use eframework.Epollet.Release.{
  dissociated, used_up, epollet_dissociate-lookup, epollet_unset-lookup,
}
use eframework.Epollet.Reach.{created, associated, IsSound, Reach-IsSound}
use eframework.Epollet.Filled.{NotFilled, associate-Ready}
use eframework.Epollet.Wait.{Reported, epollet_wait_lem}

-- Descriptor 5 waits for input, and may be written to.
abbrev reader : Epoll
reader = record {
  cap = 128;
  used = 1;
  fill = 0;
  index = update (λ _. none) 5 (some 0);
  items = λ _. record { fd = 5; waiting = 1; fired = 4; ptr = 7 };
}

reader-IsValid : IsValid reader
unfolding vacant
reader-IsValid = record {
  table = record {
    bound = λ i p. omega arith;
    there = λ i p. ground arith;
    back = λ k i h e. ground arith;
    room = refl;
  };
  fill_in = omega arith;
}

reader-FillIsReady : FillIsReady reader
reader-FillIsReady i h = absurd (omega arith)

epollet_associate-Gives_example :
    Gives
      (associate true true true true reader 200 4 9)
      (if (expand true true true reader 200).0 then registered true reader 200 4 9 else failed)
      (if (expand true true true reader 200).0 then asked_for reader 200 4 9 else lookup reader)
epollet_associate-Gives_example =
    epollet_associate-Gives true true true true reader 200 4 9 reader-IsValid (omega arith)

epollet_dissociate-lookup_example :
    IsValid (dissociate reader 5 true)
    × (lookup (dissociate reader 5 true) 5
        ≡ (if 5 == 5 then dissociated true (lookup reader 5) else lookup reader 5))
epollet_dissociate-lookup_example = epollet_dissociate-lookup reader 5 5 true reader-IsValid

epollet_unset-lookup_run :
    IsValid (unset reader 5 4)
    × (lookup (unset reader 5 4) 5
        ≡ (if 5 == 5 then used_up (lookup reader 5) 4 else lookup reader 5))
epollet_unset-lookup_run = epollet_unset-lookup reader 5 4 5 reader-IsValid

expanded-IsValid : IsValid (expand true true true reader 5).1
unfolding expand
expanded-IsValid = reader-IsValid

reader-NotFilled : NotFilled reader 5
reader-NotFilled idx e = omega arith

associate-Ready_run : FillIsReady (associate true true true true reader 5 4 7).1
associate-Ready_run =
    associate-Ready true true true true reader 5 4 7 expanded-IsValid reader-FillIsReady
      reader-NotFilled

reader_known : lookup reader 5 ≡ some (record { fd = 5; waiting = 1; fired = 4; ptr = 7 })
unfolding lookup
reader_known = refl

epollet_wait_lem_example : Reported reader (some ((5, 1) ∷ [])) 10 5
epollet_wait_lem_example =
    epollet_wait_lem reader (some ((5, 1) ∷ [])) 10 5 reader-IsValid reader-FillIsReady
      ((record { fd = 5; waiting = 1; fired = 4; ptr = 7 }, reader_known), tt)

abbrev new_one : Epoll
new_one = record {
  cap = 128;
  used = 0;
  fill = 0;
  index = λ _. none;
  items = λ _. record { fd = 0; waiting = 0; fired = 0; ptr = 0 };
}

new_one-created :
    create true true true true true (λ _. record { fd = 0; waiting = 0; fired = 0; ptr = 0 }) 10
    ≡ some new_one
unfolding create
new_one-created = refl

new_one-NotFilled : NotFilled new_one 5
new_one-NotFilled idx e = omega arith

Reach-IsSound_example : IsSound (associate true true true true new_one 5 4 7).1
Reach-IsSound_example = Reach-IsSound (associate true true true true new_one 5 4 7).1 (
    associated true true true true new_one 5 4 7
      (created true true true true true _ 10 new_one new_one-created) new_one-NotFilled)
