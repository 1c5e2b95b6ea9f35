-- ===== src/Epollet/Wait.antt =====
-- What ef_epoll_wait does with the kernel's answers, and what it reports.
use eframework.Base.{
  ℕ, zero, suc, ◌+◌, ◌≤◌, ◌<◌, ◌≡◌, ◌≢◌, refl, ap, ◌∙◌, inl, inr, Bool, true, false, ◌&&◌, ◌||◌,
  Option, none, some, List, [], ◌∷◌, arith, min, length, All, ltb, leb, ◌==◌, if◌then◌else◌,
  Bool-cases, Option-cases, bit_or,
}
use eframework.Table.{update}
use eframework.Epollet.{
  Item, Epoll, Event, IsValid, FillIsReady, merge_item, merge, collect, wait, is_ready,
}
use eframework.Epollet.Valid.{rewrite-IsValid, admit-IsValid}
use eframework.Epollet.Lookup.{lookup, lookup-admit, lookup-rewrite}
use eframework.Epollet.Filled.{merge_item-Ready}
use eframework.Epollet.Served.{
  is_filled, is_filled-below, can_serve, is_reported, is_filled-admit, is_filled_empty,
  is_filled-can_serve, served_step, Chosen, collect-Chosen,
}

-- The item of `g` after the kernel's answers: the events that it reported for `g` are added.
unfoldable pub fired_by : List (ℕ × ℕ) → ℕ → Option Item → Option Item
fired_by [] g o = o
fired_by ((fd, events) ∷ answers) g o = fired_by answers g (
    if g == fd
    then (elim o [ none ↦ none | some it ↦ some (record it { fired = bit_or it.fired events }) ])
    else o)

-- Every descriptor that the kernel reports has an item.
abbrev pub Known : Epoll → List (ℕ × ℕ) → Type 0
Known ep answers = All (λ a. (it : Item) × (lookup ep a.0 ≡ some it)) answers

merge_item_lem :
    (ep : Epoll) (fd idx events g : ℕ)
    → IsValid ep
    → fd < ep.cap
    → ep.index fd ≡ some idx
    → IsValid (merge_item ep idx events)
      × (lookup (merge_item ep idx events) g ≡ (
          if g == fd
          then some (record (ep.items idx) { fired = bit_or (ep.items idx).fired events })
          else lookup ep g))
unfolding merge_item
merge_item_lem ep fd idx events g v h e =
    let it = record (ep.items idx) { fired = bit_or (ep.items idx).fired events } in
    let changed = record ep { items = update ep.items idx it } in
    let valid = rewrite-IsValid ep idx it v refl in
    let inside : idx < ep.used = (v.table.back fd idx h e).0 in
    let items = lookup-rewrite ep fd idx g it v h e in
    elim (Bool-cases (leb ep.fill idx && is_ready (changed.items idx))) [
      | inl enters ↦
          rw enters (
            admit-IsValid changed idx valid inside,
            lookup-admit changed idx g valid inside ∙ items,
          )
      | inr stays ↦ rw stays (valid, items)
    ]

entered :
    (before here now : Bool) {after : Bool}
    → after ≡ (here || before)
    → (here ≡ true → now ≡ true)
    → after ≡ (before || (here && now))
entered before here now a n = elim (Bool-cases here) [
  | inl same ↦ let good = n same in ground (arith, a, same, good)
  | inr other ↦ ground (arith, a, other)
]

kept :
    (before here now : Bool) {after : Bool}
    → after ≡ before
    → (here ≡ true → now ≡ true → before ≡ true)
    → after ≡ (before || (here && now))
kept before here now a n = elim (Bool-cases here) [
  | inl same ↦ elim (Bool-cases now) [
    | inl good ↦ let inside = n same good in ground (arith, a, same, good, inside)
    | inr bad ↦ ground (arith, a, same, bad)
  ]
  | inr other ↦ ground (arith, a, other)
]

-- An answer puts its item into the filled area if it can be served then, and no other item.
is_filled-merge_item :
    (ep : Epoll) (fd idx events g : ℕ)
    → IsValid ep
    → fd < ep.cap
    → ep.index fd ≡ some idx
    → is_filled (merge_item ep idx events) g
      ≡ (is_filled ep g || ((g == fd) && can_serve (lookup (merge_item ep idx events) g)))
unfolding merge_item
is_filled-merge_item ep fd idx events g v h e =
    let it = record (ep.items idx) { fired = bit_or (ep.items idx).fired events } in
    let changed = record ep { items = update ep.items idx it } in
    let (inside, key) = v.table.back fd idx h e in
    let item = (merge_item_lem ep fd idx events g v h e).1 in
    let fd_is : (changed.items idx).fd ≡ fd = ground (arith, key) in
    let serves : (g == fd) ≡ true → can_serve (lookup (merge_item ep idx events) g) ≡ is_ready it =
      λ same. ap can_serve item ∙ ap (λ b. can_serve (if b then some it else lookup ep g)) same in
    let unchanged : is_filled changed g ≡ is_filled ep g = unfold is_filled in refl in
    let now : is_ready (changed.items idx) ≡ is_ready it = ground arith in
    elim (Bool-cases (leb ep.fill idx && is_ready (changed.items idx))) [
      | inl enters ↦
          let moved =
            is_filled-admit changed idx g (rewrite-IsValid ep idx it v refl) inside
              (ground (arith, enters)) in
          let left : is_filled (merge_item ep idx events) g ≡ ((g == fd) || is_filled ep g) =
            rw enters (
              moved
              ∙ ap (λ k. (g == k) || is_filled changed g) fd_is
              ∙ ap (λ b. (g == fd) || b) unchanged) in
          let good : is_ready it ≡ true = ground (arith, enters, now) in
          entered (is_filled ep g) (g == fd) _ left (λ same. serves same ∙ good)
      | inr stays ↦
          let left : is_filled (merge_item ep idx events) g ≡ is_filled ep g = rw stays unchanged in
          kept (is_filled ep g) (g == fd) _ left (λ same good.
            let here : idx < ep.fill = ground (arith, stays, now, serves same, good) in
            is_filled-below ep g fd idx same h e here)
    ]

-- What the kernel has not reported stays.
fired_by_unreported :
    (answers : List (ℕ × ℕ)) (g : ℕ) (o : Option Item)
    → is_reported answers g ≡ false
    → fired_by answers g o ≡ o
unfolding fired_by is_reported
fired_by_unreported [] g o h = refl
fired_by_unreported ((fd, events) ∷ answers) g o h =
    let other : (g == fd) ≡ false = ground (arith, h) in
    rw other (fired_by_unreported answers g o (ground (arith, h)))

-- The events of `n` items from `i` on: as many as asked for, and none of them empty.
collect_lem :
    (ep : Epoll) (i n : ℕ)
    → FillIsReady ep
    → i + n ≤ ep.fill
    → (length (collect ep i n) ≡ n) × All (λ e. e.events ≢ 0) (collect ep i n)
unfolding collect
collect_lem ep i zero f h = (refl, tt)
collect_lem ep i (suc n) f h =
    let rest = collect_lem ep (i + 1) n f (omega arith) in
    (ap suc rest.0, (ground (arith, f i), rest.1))

merge_item-Known :
    (ep : Epoll) (fd idx events : ℕ) (answers : List (ℕ × ℕ))
    → IsValid ep
    → fd < ep.cap
    → ep.index fd ≡ some idx
    → Known ep answers
    → Known (merge_item ep idx events) answers
merge_item-Known ep fd idx events [] v h e k = tt
merge_item-Known ep fd idx events ((g, more) ∷ answers) v h e ((it, found), k) =
    let here = (merge_item_lem ep fd idx events g v h e).1 in
    let rest = merge_item-Known ep fd idx events answers v h e k in
    let new = record (ep.items idx) { fired = bit_or (ep.items idx).fired events } in
    let by_test = λ (b : Bool). if b then some new else lookup ep g in
    elim (Bool-cases (g == fd)) [
      | inl same ↦ ((new, here ∙ ap by_test same), rest)
      | inr other ↦ ((it, here ∙ ap by_test other ∙ found), rest)
    ]

-- A descriptor with an item is in the table.
lookup-index :
    (ep : Epoll) (fd : ℕ) (it : Item)
    → lookup ep fd ≡ some it
    → (fd < ep.cap) × ((idx : ℕ) × (ep.index fd ≡ some idx) × (ep.items idx ≡ it))
unfolding lookup
lookup-index ep fd it e = elim (Option-cases (ep.index fd)) [
  | inl free ↦ ground arith
  | inr (idx, taken) ↦ elim (Bool-cases (ltb fd ep.cap)) [
    | inl inside ↦ (ground arith, (idx, taken, ground arith))
    | inr outside ↦ ground arith
  ]
]

fire_found :
    (fd g events : ℕ) (o : Option Item) (here it : Item)
    → (g ≡ fd → o ≡ some it)
    → here ≡ it
    → (if g == fd then some (record here { fired = bit_or here.fired events }) else o) ≡ (
        if g == fd
        then (elim o [ none ↦ none | some x ↦ some (record x { fired = bit_or x.fired events }) ])
        else o)
fire_found fd g events o here it p e = elim (Bool-cases (g == fd)) [
  | inr other ↦ rw other refl
  | inl same ↦ let found : o ≡ some it = p (ground arith) in rw (found, e) refl
]

-- What the answers leave behind, seen at the descriptor `g`.
pub record Merged (ep : Epoll) (answers : List (ℕ × ℕ)) (g : ℕ) : Type 0 where
  pub result : Epoll
  pub runs : merge ep answers ≡ some result
  pub valid : IsValid result
  pub ready : FillIsReady result
  pub items : lookup result g ≡ fired_by answers g (lookup ep g)
  pub filled :
      is_filled result g
      ≡ (is_filled ep g || (is_reported answers g && can_serve (lookup result g)))

-- The events of all answers are added, and the table and the filled area stay as they should be.
pub merge_lem :
    (ep : Epoll) (answers : List (ℕ × ℕ)) (g : ℕ)
    → IsValid ep
    → FillIsReady ep
    → Known ep answers
    → Merged ep answers g
unfolding merge fired_by is_reported
merge_lem ep [] g v f k = record {
  result = ep;
  runs = refl;
  valid = v;
  ready = f;
  items = refl;
  filled = ground arith;
}
merge_lem ep ((fd, events) ∷ answers) g v f ((it, found), k) =
    let (inside, (idx, taken, here)) = lookup-index ep fd it found in
    let next = merge_item ep idx events in
    let (valid, items) = merge_item_lem ep fd idx events g v inside taken in
    let m =
      merge_lem next answers g valid (merge_item-Ready ep idx events f)
        (merge_item-Known ep fd idx events answers v inside taken k) in
    record {
      result = m.result;
      runs = rw (taken, merge) m.runs;
      valid = m.valid;
      ready = m.ready;
      items =
          m.items
          ∙ ap (fired_by answers g) (
              items
              ∙ fire_found fd g events (lookup ep g) (ep.items idx) it (λ e. rw e found) here);
      filled =
          served_step (is_filled ep g) (g == fd) (is_reported answers g) (can_serve (lookup next g))
            (can_serve (lookup m.result g)) (is_filled next g) (is_filled m.result g)
            (is_filled-merge_item ep fd idx events g v inside taken) m.filled
            (is_filled-can_serve m.result g m.ready)
            (λ o. ap can_serve (m.items ∙ fired_by_unreported answers g (lookup next g) o));
    }

-- An error of the kernel is passed on. Otherwise as many events are reported as are asked for and
-- can be served, those of descriptors of the filled area, and none of them is empty.
abbrev pub Reports :
    (ep result : Epoll) → Option (List (ℕ × ℕ)) → (count : ℕ) → Option (List Event) → Type 0
Reports ep result answers count none = (ep.fill ≡ 0) × (answers ≡ none)
Reports ep result answers count (some l) =
    (length l ≡ min result.fill count) × All (λ e. e.events ≢ 0) l × Chosen result count l

-- Whether the kernel has reported the descriptor, and its item can be served by now.
abbrev pub is_served : Option (List (ℕ × ℕ)) → (ℕ → Option Item) → ℕ → Bool
is_served none items g = false
is_served (some l) items g = is_reported l g && can_serve (items g)

-- What a call of `ef_epoll_wait` gives, seen at the descriptor `g`.
pub record Reported (ep : Epoll) (answers : Option (List (ℕ × ℕ))) (count g : ℕ) : Type 0 where
  pub outcome : Option (List Event)
  pub result : Epoll
  pub runs : wait ep answers count ≡ some (outcome, result)
  pub valid : IsValid result
  pub ready : FillIsReady result
  pub items : lookup result g ≡ (
      if ep.fill == 0
      then (elim answers [ none ↦ lookup ep g | some l ↦ fired_by l g (lookup ep g) ])
      else lookup ep g)
  pub filled :
      is_filled result g
      ≡ (if ep.fill == 0 then is_served answers (lookup result) g else is_filled ep g)
  pub events : Reports ep result answers count outcome

collect-min :
    (ep : Epoll) (count : ℕ)
    → IsValid ep
    → FillIsReady ep
    → let l = collect ep 0 (if ltb ep.fill count then ep.fill else count) in
      (length l ≡ min ep.fill count) × All (λ e. e.events ≢ 0) l × Chosen ep count l
collect-min ep count v f =
    let n = if ltb ep.fill count then ep.fill else count in
    let fits : n ≡ min ep.fill count = ground arith in
    let (l, a) = collect_lem ep 0 n f (ground arith) in (l ∙ fits, a, collect-Chosen ep count v)

-- The kernel reports only descriptors that have an item.
abbrev pub KnownAnswers : Epoll → Option (List (ℕ × ℕ)) → Type 0
KnownAnswers ep none = Unit
KnownAnswers ep (some l) = Known ep l

-- `ef_epoll_wait` on a valid object whose filled area can be served, if the kernel reports only
-- descriptors that have an item: it runs without a wrong access, and the object stays so. The
-- kernel is asked only if the filled area is empty; its events are then added to the items of
-- their descriptors, no other item changes, and the filled area holds exactly those descriptors
-- that it has reported and that can be served by now; otherwise the filled area stays. An error of
-- the kernel is passed on; otherwise as many events are reported as are asked for and are in the
-- filled area, none of them empty, each with the events and the pointer of a descriptor of the
-- filled area, at most one for each, and one for every descriptor of it if `count` allows it.
pub epollet_wait_lem :
    (ep : Epoll) (answers : Option (List (ℕ × ℕ))) (count g : ℕ)
    → IsValid ep
    → FillIsReady ep
    → KnownAnswers ep answers
    → Reported ep answers count g
unfolding wait
epollet_wait_lem ep none count g v f k = elim (Bool-cases (ep.fill == 0)) [
  | inl empty ↦ record {
    outcome = none;
    result = ep;
    runs = rw (empty, wait) refl;
    valid = v;
    ready = f;
    items = ground arith;
    filled = rw empty (is_filled_empty ep g (ground (arith, empty)));
    events = (ground arith, refl);
  }
  | inr filled ↦ record {
    outcome = some (collect ep 0 (if ltb ep.fill count then ep.fill else count));
    result = ep;
    runs = rw (filled, wait) refl;
    valid = v;
    ready = f;
    items = ground arith;
    filled = rw filled refl;
    events = collect-min ep count v f;
  }
]
epollet_wait_lem ep (some l) count g v f k = elim (Bool-cases (ep.fill == 0)) [
  | inl empty ↦
      let m = merge_lem ep l g v f k in
      let ep' = m.result in
      record {
        outcome = some (collect ep' 0 (if ltb ep'.fill count then ep'.fill else count));
        result = ep';
        runs = rw (empty, m.runs, wait) refl;
        valid = m.valid;
        ready = m.ready;
        items = m.items ∙ rw empty refl;
        filled = rw empty (
            m.filled
            ∙ ap (λ b. b || (is_reported l g && can_serve (lookup ep' g)))
                (is_filled_empty ep g (ground (arith, empty))));
        events = collect-min ep' count m.valid m.ready;
      }
  | inr filled ↦ record {
    outcome = some (collect ep 0 (if ltb ep.fill count then ep.fill else count));
    result = ep;
    runs = rw (filled, wait) refl;
    valid = v;
    ready = f;
    items = rw filled refl;
    filled = rw filled refl;
    events = collect-min ep count v f;
  }
]
