-- ===== src/Structure/DList.antt =====
-- src/structure/list.h: circular lists through two pointers in each entry. An address is a number.
pub mod Ring
pub mod Insert
pub mod Remove
mod Tests
use eframework.Base.{ℕ, Bool, Option, none, some, ◌==◌, if◌then◌else◌}
use eframework.Table.{update}

-- The two pointers of each entry, by its address.
pub record Links : Type 0 where
  pub prev : ℕ → ℕ
  pub next : ℕ → ℕ

abbrev pub set_prev : Links → ℕ → ℕ → Links
set_prev l entry target = record l { prev = update l.prev entry target }

abbrev pub set_next : Links → ℕ → ℕ → Links
set_next l entry target = record l { next = update l.next entry target }

-- `ef_list_empty`.
unfoldable pub is_empty : Links → ℕ → Bool
is_empty l head = l.next head == head

-- `ef_list_init`.
unfoldable pub init : Links → ℕ → Links
init l head = set_next (set_prev l head head) head head

-- `ef_list_remove`.
unfoldable pub remove : Links → ℕ → Links
remove l entry =
    let l1 = set_prev l (l.next entry) (l.prev entry) in set_next l1 (l1.prev entry) (l1.next entry)

-- `ef_list_insert_before`.
unfoldable pub insert_before : Links → (current entry : ℕ) → Links
insert_before l current entry =
    let l1 = set_next l entry current in
    let l2 = set_next l1 (l1.prev current) entry in
    let l3 = set_prev l2 entry (l2.prev current) in set_prev l3 current entry

-- `ef_list_insert_after`.
unfoldable pub insert_after : Links → (current entry : ℕ) → Links
insert_after l current entry =
    let l1 = set_next l entry (l.next current) in
    let l2 = set_next l1 current entry in
    let l3 = set_prev l2 entry current in set_prev l3 (l3.next entry) entry

-- `ef_list_remove_before`: the entry, `none` for NULL.
unfoldable pub remove_before : Links → ℕ → Option ℕ × Links
remove_before l current =
    if is_empty l current
    then (none, l)
    else (let entry = l.prev current in
        let l1 = set_prev l current (l.prev entry) in
        (some entry, set_next l1 (l1.prev current) current))

-- `ef_list_remove_after`.
unfoldable pub remove_after : Links → ℕ → Option ℕ × Links
remove_after l current =
    if is_empty l current
    then (none, l)
    else (let entry = l.next current in
        let l1 = set_next l current (l.next entry) in
        (some entry, set_prev l1 (l1.next current) current))
