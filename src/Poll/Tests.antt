-- ===== src/Poll/Tests.antt =====
-- Runs of src/poll.c on small inputs.
use eframework.Base.{
  ◌%◌, ◌^◌, ◌≡◌, refl, true, false, none, some, arith, take, length, ◌==◌, if◌then◌else◌,
}
use eframework.Table.{update, vacant}
use eframework.Poll.{Pollsys, IsValid, unused, associate, dissociate, wait, ready, answered}
use eframework.Poll.Lookup.{lookup, poll_associate-lookup, poll_dissociate-lookup}
use eframework.Poll.Scan.{ready_events, poll_wait_lem}

-- Descriptor 5 waits for input.
abbrev reader : Pollsys
reader = record {
  cap = 128;
  nfds = 1;
  index = update (λ _. unused) 5 (record { idx = some 0; ptr = 7 });
  pfds = λ _. record { fd = 5; events = 1; revents = 0 };
}

reader-IsValid : IsValid reader
unfolding vacant
reader-IsValid = record {
  bound = λ i p. omega arith;
  there = λ i p. ground arith;
  back = λ k i h e. ground arith;
  room = refl;
}

poll_associate-lookup_example :
    let (ok, ep') = associate true true reader 200 4 9 false in
    IsValid ep'
    × (lookup ep' 200 ≡ (
        if ok
        then (if 200 == 200
            then some (record { events = 4 % 2 ^ 16; ptr = 9 })
            else lookup reader 200)
        else lookup reader 200))
poll_associate-lookup_example =
    poll_associate-lookup true true reader 200 4 9 200 reader-IsValid (omega arith)

poll_dissociate-lookup_example :
    IsValid (dissociate reader 5)
    × (lookup (dissociate reader 5) 5 ≡ (if 5 == 5 then none else lookup reader 5))
poll_dissociate-lookup_example = poll_dissociate-lookup reader 5 5 reader-IsValid

one_ready : 1 ≡ length (ready_events (answered reader (λ _. 1)) 1 0)
unfolding ready_events
one_ready = refl

poll_wait_lem_example :
    let (events, ep') = wait reader (ready 1 (λ _. 1)) 10 in
    (events ≡ take 10 (ready_events (answered reader (λ _. 1)) 1 0))
    × (lookup ep' 5 ≡ lookup reader 5)
poll_wait_lem_example = poll_wait_lem reader 1 10 5 (λ _. 1) one_ready
