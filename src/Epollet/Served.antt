-- ===== src/Epollet/Served.antt =====
-- Which descriptors the filled area of the edge-triggered back end holds after the kernel's answers, and which
-- of them ef_epoll_wait reports.
use eframework.Base.{
  ℕ, zero, suc, ◌+◌, ◌≤◌, ◌<◌, ◌≡◌, refl, ap, inl, inr, Bool, true, false, ◌&&◌, ◌||◌, Option, none,
  some, List, [], ◌∷◌, arith, ltb, leb, ◌==◌, if◌then◌else◌, Bool-cases, Option-cases,
}
use eframework.Epollet.{
  Item, Epoll, Event, IsValid, FillIsReady, exchange, admit, collect, is_ready, reportable,
}
use eframework.Epollet.Lookup.{lookup}

-- Whether the descriptor is in the filled area.
unfoldable pub is_filled : Epoll → ℕ → Bool
is_filled ep g = ltb g ep.cap && elim (ep.index g) [ none ↦ false | some i ↦ ltb i ep.fill ]

-- Whether the item can be served.
abbrev pub can_serve : Option Item → Bool
can_serve none = false
can_serve (some it) = is_ready it

-- Whether the kernel has reported the descriptor.
unfoldable pub is_reported : List (ℕ × ℕ) → ℕ → Bool
is_reported [] g = false
is_reported ((fd, events) ∷ answers) g = (g == fd) || is_reported answers g

-- An item that is outside enters.
pub is_filled-admit :
    (ep : Epoll) (idx g : ℕ)
    → IsValid ep
    → idx < ep.used
    → ep.fill ≤ idx
    → is_filled (admit ep idx) g ≡ ((g == (ep.items idx).fd) || is_filled ep g)
unfolding is_filled admit exchange
is_filled-admit ep idx g v h out = elim (Option-cases (ep.index g)) [
  | inl free ↦
      ground
        (arith, v.table.there idx, v.table.there ep.fill, v.table.bound idx, v.table.bound ep.fill)
  | inr (x, taken) ↦ ground (
    arith,
    v.table.there idx,
    v.table.there ep.fill,
    v.table.bound idx,
    v.table.bound ep.fill,
    v.table.back g x,
  )
]

-- The descriptors of `n` items from position `i` on.
abbrev pub fds_from : Epoll → (i n : ℕ) → List ℕ
fds_from ep i zero = []
fds_from ep i (suc n) = (ep.items i).fd ∷ fds_from ep (i + 1) n

-- The event that is reported for an item.
abbrev pub event_of : Option Item → Event
event_of none = record { events = 0; ptr = 0 }
event_of (some it) = record { events = reportable it; ptr = it.ptr }

abbrev pub events_of : Epoll → List ℕ → List Event
events_of ep [] = []
events_of ep (g ∷ gs) = event_of (lookup ep g) ∷ events_of ep gs

unfoldable pub occurs : ℕ → List ℕ → ℕ
occurs g [] = 0
occurs g (x ∷ xs) = (if g == x then 1 else 0) + occurs g xs

lookup-position :
    (ep : Epoll) (i : ℕ) → IsValid ep → i < ep.used → lookup ep (ep.items i).fd ≡ some (ep.items i)
unfolding lookup
lookup-position ep i v h = ground (arith, v.table.there i, v.table.bound i)

pub collect-events_of :
    (ep : Epoll) (i n : ℕ)
    → IsValid ep
    → i + n ≤ ep.used
    → collect ep i n ≡ events_of ep (fds_from ep i n)
unfolding collect
collect-events_of ep i zero v h = refl
collect-events_of ep i (suc n) v h =
    let here = lookup-position ep i v (omega arith) in
    rw here
      (ap (λ l. event_of (some (ep.items i)) ∷ l) (collect-events_of ep (i + 1) n v (omega arith)))

-- Whether the descriptor's position is one of the `n` from `i` on.
unfoldable pub is_between : Epoll → (i n : ℕ) → ℕ → Bool
is_between ep i n g =
    ltb g ep.cap && elim (ep.index g) [ none ↦ false | some x ↦ leb i x && ltb x (i + n) ]

pub occurs-fds_from :
    (ep : Epoll) (i n g : ℕ)
    → IsValid ep
    → i + n ≤ ep.used
    → occurs g (fds_from ep i n) ≡ (if is_between ep i n g then 1 else 0)
unfolding occurs is_between
occurs-fds_from ep i zero g v h = ground arith
occurs-fds_from ep i (suc n) g v h =
    let rest = occurs-fds_from ep (i + 1) n g v (omega arith) in
    elim (Option-cases (ep.index g)) [
      | inl free ↦ ground (arith, rest, v.table.there i, v.table.bound i)
      | inr (x, taken) ↦ ground (arith, rest, v.table.there i, v.table.bound i, v.table.back g x)
    ]

-- What ef_epoll_wait reports: the events of descriptors of the filled area, each at most once, and of all of
-- them if `count` allows it.
pub record Chosen (ep : Epoll) (count : ℕ) (l : List Event) : Type 0 where
  pub chosen : List ℕ
  pub events : l ≡ events_of ep chosen
  pub once : (g : ℕ) → occurs g chosen ≤ (if is_filled ep g then 1 else 0)
  pub whole : ep.fill ≤ count → (g : ℕ) → occurs g chosen ≡ (if is_filled ep g then 1 else 0)

pub collect-Chosen :
    (ep : Epoll) (count : ℕ)
    → IsValid ep
    → Chosen ep count (collect ep 0 (if ltb ep.fill count then ep.fill else count))
unfolding is_between is_filled
collect-Chosen ep count v =
    let n = if ltb ep.fill count then ep.fill else count in
    let inside : 0 + n ≤ ep.used = ground (arith, v.fill_in) in
    record {
      chosen = fds_from ep 0 n;
      events = collect-events_of ep 0 n v inside;
      once = λ g.
          let o = occurs-fds_from ep 0 n g v inside in
          elim (Option-cases (ep.index g)) [
            | inl free ↦ ground (arith, o)
            | inr (x, taken) ↦ ground (arith, o)
          ];
      whole = λ all g.
          let o = occurs-fds_from ep 0 n g v inside in
          elim (Option-cases (ep.index g)) [
            | inl free ↦ ground (arith, o)
            | inr (x, taken) ↦ ground (arith, o)
          ];
    }

-- An empty filled area holds nothing.
pub is_filled_empty : (ep : Epoll) (g : ℕ) → ep.fill ≡ 0 → is_filled ep g ≡ false
unfolding is_filled
is_filled_empty ep g e = elim (Option-cases (ep.index g)) [
  | inl free ↦ ground arith
  | inr (x, taken) ↦ ground arith
]

-- What is in the filled area can be served.
pub is_filled-can_serve :
    (ep : Epoll) (g : ℕ) → FillIsReady ep → is_filled ep g ≡ true → can_serve (lookup ep g) ≡ true
unfolding is_filled lookup
is_filled-can_serve ep g f h = elim (Option-cases (ep.index g)) [
  | inl free ↦ absurd (ground (arith, h))
  | inr (x, taken) ↦ ground (arith, h, f x)
]

-- One answer and then the others: what is in the area before, between and after, and what can be served.
pub served_step :
    (before here other now later between after : Bool)
    → between ≡ (before || (here && now))
    → after ≡ (between || (other && later))
    → (after ≡ true → later ≡ true)
    → (other ≡ false → later ≡ now)
    → after ≡ (before || ((here || other) && later))
served_step before here other now later between after b a f o = elim (Bool-cases later) [
  | inl good ↦ elim (Bool-cases other) [
    | inl more ↦ ground (arith, b, a, good, more)
    | inr none_more ↦ let same = o none_more in ground (arith, b, a, good, none_more, same)
  ]
  | inr bad ↦ elim (Bool-cases after) [
    | inl inside ↦ let good = f inside in absurd (ground (arith, good, bad))
    | inr outside ↦ ground (arith, b, a, bad, outside)
  ]
]

-- The position of a descriptor says whether it is in the area.
pub is_filled-below :
    (ep : Epoll) (g fd idx : ℕ)
    → (g == fd) ≡ true
    → fd < ep.cap
    → ep.index fd ≡ some idx
    → idx < ep.fill
    → is_filled ep g ≡ true
unfolding is_filled
is_filled-below ep g fd idx same h e inside =
    let g_is : g ≡ fd = ground (arith, same) in rw (g_is) (rw e (ground arith))
