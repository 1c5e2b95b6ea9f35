-- ===== src/Fiber.antt =====
-- src/fiber.c, src/fiber.h: fibers, their stacks and the scheduler. An address is a number. The
-- switch of the stacks is assembly; what is modelled of it is that control passes.
pub mod Align
pub mod Stack
pub mod Calls
mod Tests
use eframework.Base.{
  ℕ, zero, suc, ◌+◌, ◌-◌, ◌*◌, ◌<◌, Bool, true, false, ◌&&◌, Option, none, some, ltb, leb, ◌==◌,
  if◌then◌else◌, size_mod, add_size, sub_size, bit_and,
}
use eframework.Table.{update}

-- `_ef_fiber_t` without the saved stack pointer and the way back to the scheduler.
pub record Fiber : Type 0 where
  pub stack_size : ℕ
  pub stack_area : ℕ
  pub stack_upper : ℕ
  pub stack_lower : ℕ
  pub status : ℕ
  pub parent : ℕ

abbrev pub status_exited : ℕ
status_exited = 0

abbrev pub status_inited : ℕ
status_inited = 1

-- `x & ~(page_size - 1)`.
unfoldable pub align_down : (page_size : ℕ) → ℕ → ℕ
align_down page_size x = bit_and x (size_mod - 1 - (page_size - 1))

-- The size of the stack that `ef_fiber_create` asks for.
unfoldable pub whole_pages : (page_size stack_size : ℕ) → ℕ
whole_pages page_size stack_size =
    let size = if stack_size == 0 then page_size else stack_size in
    align_down page_size (sub_size (add_size size page_size) 1)

-- `ef_fiber_create`: its address and the fiber there. `area` is what `mmap` gives, and `mapped` says
-- whether `mprotect` succeeds.
unfoldable pub create :
    (page_size : ℕ)
    → (area : Option ℕ) → (mapped : Bool) → (stack_size header_size : ℕ) → Option (ℕ × Fiber)
create page_size area mapped stack_size header_size =
    let size = whole_pages page_size stack_size in
    elim area [
      | none ↦ none
      | some stack ↦
          if mapped
          then some (
            stack + size - header_size,
            record {
              stack_size = size;
              stack_area = stack;
              stack_upper = stack + size - header_size;
              stack_lower = stack + size - page_size;
              status = status_inited;
              parent = 0;
            },
          )
          else none
    ]

-- `ef_fiber_expand_stack`: whether it succeeds (0 and not -1).
unfoldable pub expand_stack : (page_size : ℕ) → (mapped : Bool) → Fiber → (addr : ℕ) → Bool × Fiber
expand_stack page_size mapped fiber addr =
    let lower = align_down page_size addr in
    if leb (fiber.stack_area + page_size) lower && ltb lower fiber.stack_lower
    then (if mapped then (true, record fiber { stack_lower = lower }) else (false, fiber))
    else (false, fiber)

-- `_ef_fiber_sched_t`: the fiber that runs, and all fibers by address, the thread's own one included.
pub record Sched : Type 0 where
  pub current_fiber : ℕ
  pub fibers : ℕ → Fiber

-- Why `ef_fiber_resume` refuses: ERROR_FIBER_EXITED, ERROR_FIBER_NOT_INITED.
pub data Resumption : Type 0 where
  exited not_inited : Resumption
  switched : Sched → Resumption

-- `ef_fiber_resume` up to the switch.
unfoldable pub resume : Sched → (to : ℕ) → Resumption
resume rt to =
    if (rt.fibers to).status == status_inited
    then switched (record {
      current_fiber = to;
      fibers = update rt.fibers to (record (rt.fibers to) { parent = rt.current_fiber });
    })
    else if (rt.fibers to).status == status_exited
    then exited
    else not_inited

-- `ef_fiber_yield` up to the switch.
unfoldable pub yield : Sched → Sched
yield rt = record rt { current_fiber = (rt.fibers rt.current_fiber).parent }

-- The end of a fiber's procedure: the fiber is marked and its parent goes on.
unfoldable pub exit : Sched → Sched
exit rt = record {
  current_fiber = (rt.fibers rt.current_fiber).parent;
  fibers =
      update rt.fibers rt.current_fiber
        (record (rt.fibers rt.current_fiber) { status = status_exited });
}
