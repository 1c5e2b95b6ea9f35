-- ===== src/Fiber/Tests.antt =====
-- Runs of src/fiber.c on small inputs.
use eframework.Base.{
  ◌+◌, ◌*◌, ◌/◌, ◌^◌, ◌≡◌, refl, true, false, ◌&&◌, some, List, [], ◌∷◌, arith, ltb, leb, ◌==◌,
  if◌then◌else◌,
}
use eframework.Fiber.{Fiber, Sched, expand_stack, status_inited}
use eframework.Fiber.Stack.{IsStack, Created, expand_stack_lem, create-Created}
use eframework.Fiber.Calls.{
  Act, resumes, yields, exits, Calls, Follows, run, calls, has, call, run-Follows,
}

-- Four pages from page 16 on, the highest of them mapped.
abbrev small_stack : Fiber
small_stack = record {
  stack_size = 16384;
  stack_area = 65536;
  stack_upper = 81800;
  stack_lower = 77824;
  status = status_inited;
  parent = 0;
}

small_stack-IsStack : IsStack (2 ^ 12) small_stack
small_stack-IsStack = record {
  area = 16;
  pages = 4;
  lower = 19;
  area_at = refl;
  size_is = refl;
  lower_at = refl;
  lower_in = omega arith;
  upper_above = omega arith;
  upper_in = omega arith;
}

expand_stack_lem_run : expand_stack (2 ^ 12) true small_stack 70000 ≡ (
    if true && (leb (65536 + 2 ^ 12) 70000 && ltb 70000 77824)
    then (true, record small_stack { stack_lower = 70000 / 2 ^ 12 * 2 ^ 12 })
    else (false, small_stack))
expand_stack_lem_run =
    expand_stack_lem 12 true small_stack 70000 (omega arith) (omega arith) small_stack-IsStack

create-Created_run : Created 12 16 10000 200
create-Created_run = create-Created 12 16 10000 200 (omega arith) (omega arith) (omega arith)

-- The thread at 0; all other fibers are new.
abbrev idle : Sched
idle = record { current_fiber = 0; fibers = λ _. small_stack }

abbrev idle_calls : Calls
idle_calls = record { running = 0; callers = []; status = λ _. status_inited }

idle-Follows : Follows idle idle_calls
idle-Follows = record { current = refl; chain = tt; status = λ x. refl }

abbrev nested : List Act
nested = resumes 1 ∷ resumes 2 ∷ yields ∷ resumes 2 ∷ exits ∷ []

abbrev nested_calls : Calls
nested_calls = record {
  running = 1;
  callers = 0 ∷ [];
  status = λ x. if 2 == x then 0 else status_inited;
}

nested_runs : calls idle_calls nested ≡ some nested_calls
unfolding calls call has
nested_runs = refl

run-Follows_example : Follows (run idle nested) nested_calls
run-Follows_example = run-Follows idle idle_calls nested_calls nested idle-Follows nested_runs
