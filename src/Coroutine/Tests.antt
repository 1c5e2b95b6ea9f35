-- ===== src/Coroutine/Tests.antt =====
-- Runs of src/coroutine.c on small inputs.
use eframework.Base.{
  ◌+◌, ◌-◌, ◌≤◌, ◌≡◌, refl, true, ◌||◌, none, [], ◌∷◌, arith, ◌==◌, if◌then◌else◌,
}
use eframework.Base.Int.{pos, not_less}
use eframework.Coroutine.{Pool, can_resume, resumed, rounds, shrink}
use eframework.Coroutine.Members.{count, IsValid, Created, create-Valid, resumed-IsValid}
use eframework.Coroutine.Shrink.{shrink_lem, shrink-limits, rounds-below}

-- Two coroutines: 8 runs, and 9 has exited.
abbrev two_coroutines : Pool
two_coroutines = record {
  stack_size = 65536;
  limit_min = pos 1;
  limit_max = pos 4;
  full_list = 9 ∷ 8 ∷ [];
  free_list = 9 ∷ [];
  full_count = 2;
  free_count = 1;
  run_count = 3;
  coroutines =
      λ x. record { status = if x == 9 then 0 else 1; last_sec = 10; last_usec = 0; run_count = 1 };
}

two_coroutines-IsValid : IsValid two_coroutines
unfolding count
two_coroutines-IsValid = record {
  full_is = refl;
  free_is = refl;
  once = λ x. ground arith;
  freed = λ x. ground arith;
  limited = refl;
}

create-Valid_example : Created none two_coroutines
create-Valid_example = create-Valid none two_coroutines tt two_coroutines-IsValid

in_pool : count 8 two_coroutines.full_list ≡ 1
unfolding count
in_pool = refl

runs : can_resume two_coroutines 8 ≡ true
unfolding can_resume
runs = refl

resumed-IsValid_run : IsValid (resumed two_coroutines 8 0 20 0)
resumed-IsValid_run = resumed-IsValid two_coroutines 8 0 20 0 in_pool runs two_coroutines-IsValid

shrink_lem_example :
    let out = shrink (pos 500) (pos 5) 30 0 two_coroutines in
    IsValid out.1 × (out.0 + out.1.full_count ≡ 2) × (out.0 + out.1.free_count ≡ 1)
shrink_lem_example = shrink_lem (pos 500) (pos 5) 30 0 two_coroutines two_coroutines-IsValid

shrink-limits_example :
    let out = shrink (pos 500) (pos 5) 30 0 two_coroutines in
    (out.0 ≤ 5) × (((out.0 == 0) || not_less (pos out.1.full_count) (pos 1)) ≡ true)
shrink-limits_example = shrink-limits (pos 500) 4 30 0 two_coroutines two_coroutines-IsValid

abbrev below_minimum : Pool
below_minimum = record two_coroutines { limit_min = pos 4 }

rounds-below_run : rounds below_minimum (pos 0) ≡ 4 - 2
rounds-below_run = rounds-below below_minimum 4 refl (omega arith)
