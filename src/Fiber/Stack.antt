-- ===== src/Fiber/Stack.antt =====
-- The stack of a fiber: its layout, and its growth by whole pages down to the guard page.
use native.Mathlib.Nat.{
  le-div_iff_mul-le, div-mul-le_self, lt-div-mul-add, one-le-pow, add-mul, one-mul,
  mul-le-mul_right, pow-le-pow_right,
}
use eframework.Base.{
  ℕ, zero, suc, ◌+◌, ◌-◌, ◌*◌, ◌/◌, ◌^◌, ◌≤◌, ◌<◌, ◌≡◌, refl, inl, inr, Bool, true, false, ◌&&◌,
  some, arith, ltb, leb, ◌==◌, if◌then◌else◌, Bool-cases, size_mod, add_size, sub_size, max,
}
use eframework.Fiber.{Fiber, align_down, whole_pages, create, expand_stack}
use eframework.Fiber.Align.{align_down_lem}

-- The bounds of a stack, in pages: everything from `stack_lower` up is mapped.
pub record IsStack (page_size : ℕ) (fiber : Fiber) : Type 0 where
  pub area : ℕ
  pub pages : ℕ
  pub lower : ℕ
  pub area_at : fiber.stack_area ≡ area * page_size
  pub size_is : fiber.stack_size ≡ pages * page_size
  pub lower_at : fiber.stack_lower ≡ lower * page_size
  pub lower_in : area ≤ lower
  pub upper_above : fiber.stack_lower ≤ fiber.stack_upper
  pub upper_in : fiber.stack_upper ≤ fiber.stack_area + fiber.stack_size

-- Comparing the page of an address with a page boundary is comparing the address.
leb-page : (p q x : ℕ) → 0 < p → leb (q * p) (x / p * p) ≡ leb (q * p) x
leb-page p q x h =
    let r = le-div_iff_mul-le {k = p} {x = q} {y = x} h in
    elim (Bool-cases (leb (q * p) x)) [
      | inl above ↦
          let pages : q ≤ x / p = r.1 (ground arith) in ground (arith, mul-le-mul_right p pages)
      | inr below ↦ ground (arith, div-mul-le_self x p)
    ]

ltb-page : (p q x : ℕ) → 0 < p → ltb (x / p * p) (q * p) ≡ ltb x (q * p)
ltb-page p q x h =
    let r = le-div_iff_mul-le {k = p} {x = q} {y = x} h in
    elim (Bool-cases (ltb x (q * p))) [
      | inl below ↦ ground (arith, div-mul-le_self x p)
      | inr above ↦
          let pages : q ≤ x / p = r.1 (ground arith) in ground (arith, mul-le-mul_right p pages)
    ]

-- `ef_fiber_expand_stack` on a stack of whole pages, for a page size that is a power of two and an
-- address below 2 ^ 64: if the address is above the guard page and below what is mapped, and the
-- system maps it, the page of the address becomes the lower bound; else it fails and nothing
-- changes.
pub expand_stack_lem :
    (k : ℕ) (mapped : Bool) (fiber : Fiber) (addr : ℕ)
    → k ≤ 64
    → addr < size_mod
    → IsStack (2 ^ k) fiber
    → expand_stack (2 ^ k) mapped fiber addr ≡ (
        if mapped && (leb (fiber.stack_area + 2 ^ k) addr && ltb addr fiber.stack_lower)
        then (true, record fiber { stack_lower = addr / 2 ^ k * 2 ^ k })
        else (false, fiber))
unfolding expand_stack
expand_stack_lem k mapped fiber addr h w s =
    let guard : fiber.stack_area + 2 ^ k ≡ (s.area + 1) * 2 ^ k =
      omega (arith, s.area_at, add-mul s.area 1 (2 ^ k), one-mul (2 ^ k)) in
    let above = leb-page (2 ^ k) (s.area + 1) addr (one-le-pow k 2 (omega arith)) in
    let below = ltb-page (2 ^ k) s.lower addr (one-le-pow k 2 (omega arith)) in
    rw (align_down_lem k addr h w, guard, s.lower_at, above, below) (ground arith)

-- It keeps the layout and never maps the guard page.
pub expand_stack-IsStack :
    (k : ℕ) (mapped : Bool) (fiber : Fiber) (addr : ℕ)
    → k ≤ 64
    → addr < size_mod
    → IsStack (2 ^ k) fiber
    → IsStack (2 ^ k) (expand_stack (2 ^ k) mapped fiber addr).1
expand_stack-IsStack k mapped fiber addr h w s =
    let inside = leb (fiber.stack_area + 2 ^ k) addr && ltb addr fiber.stack_lower in
    rw (expand_stack_lem k mapped fiber addr h w s) (elim (Bool-cases (mapped && inside)) [
      | inr out ↦ rw out s
      | inl grown ↦ rw grown record {
        area = s.area;
        pages = s.pages;
        lower = addr / 2 ^ k;
        area_at = s.area_at;
        size_is = s.size_is;
        lower_at = refl;
        lower_in =
            (le-div_iff_mul-le {k = 2 ^ k} {x = s.area} {y = addr} (one-le-pow k 2 (omega arith))).1
              (ground (arith, s.area_at));
        upper_above = ground (arith, div-mul-le_self addr (2 ^ k), s.upper_above);
        upper_in = s.upper_in;
      }
    ])

-- Adding a page but one byte does not wrap around, even at the very end.
unwrapped : (s p : ℕ) → s + p ≤ size_mod → 1 ≤ p → sub_size (add_size s p) 1 ≡ s + p - 1
unwrapped s p h pos = omega arith

round_up :
    (k s : ℕ)
    → k ≤ 64
    → 1 ≤ s
    → s + 2 ^ k ≤ size_mod
    → (n : ℕ) × (align_down (2 ^ k) (sub_size (add_size s (2 ^ k)) 1) ≡ n * 2 ^ k)
      × (1 ≤ n)
      × (s ≤ n * 2 ^ k)
      × (n * 2 ^ k < s + 2 ^ k)
round_up k s h pos w =
    let one : 1 ≤ 2 ^ k = one-le-pow k 2 (omega arith) in
    let n = (s + 2 ^ k - 1) / 2 ^ k in
    let whole : align_down (2 ^ k) (sub_size (add_size s (2 ^ k)) 1) ≡ n * 2 ^ k =
      rw (unwrapped s (2 ^ k) w one) (align_down_lem k (s + 2 ^ k - 1) h (omega arith)) in
    let some_page : 1 ≤ n =
      (le-div_iff_mul-le {k = 2 ^ k} {x = 1} {y = s + 2 ^ k - 1} one).1
        (omega (arith, one-mul (2 ^ k))) in
    (
      n,
      whole,
      some_page,
      omega (arith, lt-div-mul-add {a = s + 2 ^ k - 1} {b = 2 ^ k} one),
      omega (arith, div-mul-le_self (s + 2 ^ k - 1) (2 ^ k)),
    )

-- The size asked for is rounded up to whole pages, and it is one page at least.
whole_pages_lem :
    (k stack_size : ℕ)
    → k ≤ 63
    → stack_size + 2 ^ k ≤ size_mod
    → (n : ℕ) × (whole_pages (2 ^ k) stack_size ≡ n * 2 ^ k)
      × (1 ≤ n)
      × (stack_size ≤ n * 2 ^ k)
      × (n * 2 ^ k < max stack_size (2 ^ k) + 2 ^ k)
unfolding whole_pages
whole_pages_lem k zero h w =
    let small : 2 ^ k ≤ 2 ^ 63 = pow-le-pow_right {n = 2} (omega arith) h in
    let (n, e, p, l, u) =
      round_up k (2 ^ k) (omega arith) (one-le-pow k 2 (omega arith)) (omega arith) in
    (n, e, p, omega arith, omega arith)
whole_pages_lem k (suc s) h w =
    let (n, e, p, l, u) = round_up k (suc s) (omega arith) (omega arith) w in
    let positive : (suc s == 0) ≡ false = ground arith in (n, rw positive e, p, l, omega arith)

last_page : (n p : ℕ) → 1 ≤ n → n * p ≡ (n - 1) * p + p
last_page zero p h = absurd (omega arith)
last_page (suc n) p h = grind (arith, add-mul n 1 p, one-mul p)

-- What `ef_fiber_create` gives: one page is mapped, and the header lies at its top.
pub record Created (k area stack_size header_size : ℕ) : Type 0 where
  pub at : ℕ
  pub fiber : Fiber
  pub gives : create (2 ^ k) (some (area * 2 ^ k)) true stack_size header_size ≡ some (at, fiber)
  pub stack : IsStack (2 ^ k) fiber
  pub header : at + header_size ≡ fiber.stack_area + fiber.stack_size
  pub enough : stack_size ≤ fiber.stack_size

-- `ef_fiber_create`, for a page size that is a power of two up to 2 ^ 63, a size that stays within
-- 2 ^ 64 with one page more, a header of at most a page, and an area at a page boundary that can
-- be mapped: the stack is whole pages and at least as large as asked for, its bounds are in order,
-- and the header lies at its upper end.
pub create-Created :
    (k area stack_size header_size : ℕ)
    → k ≤ 63
    → stack_size + 2 ^ k ≤ size_mod
    → header_size ≤ 2 ^ k
    → Created k area stack_size header_size
unfolding create
create-Created k area stack_size header_size h w small =
    let (n, e, p, l, u) = whole_pages_lem k stack_size h w in
    let size = whole_pages (2 ^ k) stack_size in
    let page_in : 2 ^ k ≤ size =
      omega (arith, mul-le-mul_right {m = 1} {n = n} (2 ^ k) p, one-mul (2 ^ k)) in
    let split = last_page n (2 ^ k) p in
    record {
      at = _;
      fiber = _;
      gives = refl;
      stack = record {
        area = area;
        pages = n;
        lower = area + (n - 1);
        area_at = refl;
        size_is = e;
        lower_at = omega (arith, add-mul area (n - 1) (2 ^ k));
        lower_in = omega arith;
        upper_above = omega arith;
        upper_in = omega arith;
      };
      header = omega arith;
      enough = omega arith;
    }
