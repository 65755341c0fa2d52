-- ===== src/Slab.antt =====
-- crates/monoio/src/utils/slab.rs: storage with stable keys, in pages that double in size.
-- `none` is a failed assertion, an overflow or undefined behaviour.
pub mod Page
pub mod PageId
pub mod Fine
pub mod Insert
pub mod Remove
mod Tests
use nirvana_dev.Prelude.{
  ℕ, zero, suc, ◌+◌, ◌-◌, ◌*◌, ◌/◌, ◌%◌, ◌^◌, min, Bool, true, false, not, ◌&&◌, Option, none, some,
  ltb, leb, ◌==◌, if◌then◌else◌,
}
use nirvana_dev.Prelude.Words.{leading_zeros}
use nirvana_dev.Slab.Page.{Entry, vacant, occupied, read_entry, put, alloc_set, get_entry, is_empty}

abbrev pub num_pages : ℕ
num_pages = 26

abbrev pub page_initial_size : ℕ
page_initial_size = 64

abbrev pub compact_interval : ℕ
compact_interval = 2048

-- `PAGE_INITIAL_SIZE.trailing_zeros() + 1`
abbrev pub page_index_shift : ℕ
page_index_shift = 7

abbrev pub pointer_width : ℕ
pointer_width = 64

abbrev pub saturating_add : ℕ → ℕ → ℕ
saturating_add a b = min (a + b) (2 ^ pointer_width - 1)

unfoldable pub get_page_id : ℕ → ℕ
get_page_id key =
    let slot_shifted = saturating_add key page_initial_size / 2 ^ page_index_shift in
    min (pointer_width - leading_zeros slot_shifted) (num_pages - 1)

pub record Slab (T : Type 0) : Type 0 where
  pub pages : ℕ → Option (Page.Page T)
  pub w_page_id : ℕ
  pub generation : ℕ

module _ {T : Type 0} where
  unfoldable pub new : Slab T
  new = record { pages = λ _. none; w_page_id = 0; generation = 0 }

  used_below : ℕ → Slab T → ℕ
  used_below zero s = 0
  used_below (suc n) s = used_below n s + elim (s.pages n) [ none ↦ 0 | some p ↦ p.used ]

  unfoldable pub len : Slab T → ℕ
  unfolding used_below
  len s = used_below num_pages s

  -- `key - page.prev_len` overflows where the key is smaller.
  abbrev pub index_in : Page.Page T → ℕ → Option ℕ
  index_in p key = if leb p.prev_len key then some (key - p.prev_len) else none

  -- The element that the returned reference points to.
  unfoldable pub get_in : Option (Page.Page T) → ℕ → Option (Option T)
  get_in none key = some none
  get_in (some p) key = elim (index_in p key) [ none ↦ none | some i ↦ read_entry (get_entry p i) ]

  unfoldable pub get : Slab T → ℕ → Option (Option T)
  get s key = get_in (s.pages (get_page_id key)) key

  unfoldable pub or_new : ℕ → Option (Page.Page T) → Page.Page T
  or_new i none =
      Page.new (page_initial_size * 2 ^ i) (page_initial_size * 2 ^ i - page_initial_size)
  or_new i (some p) = p

  abbrev pub page_or_new : Slab T → ℕ → Page.Page T
  page_or_new s i = or_new i (s.pages i)

  unfoldable pub with_page : Slab T → ℕ → Page.Page T → Slab T
  with_page s i p = record s { pages = put s.pages i (some p) }

  -- The loop over the pages from `i`, `left` of them. The inner `none` is the panic "out of slot".
  unfoldable pub insert_from : (left i : ℕ) → Slab T → T → Option (Option (ℕ × Slab T))
  insert_from zero i s v = some none
  insert_from (suc n) i s v = elim (alloc_set (page_or_new s i) v) [
    | none ↦ none
    | some r ↦ elim (r.0) [
      | none ↦ insert_from n (i + 1) (with_page s i r.1) v
      | some slot ↦ some (some (slot + r.1.prev_len, record (with_page s i r.1) { w_page_id = i }))
    ]
  ]

  unfoldable pub insert : Slab T → T → Option (Option (ℕ × Slab T))
  insert s v = insert_from (num_pages - s.w_page_id) s.w_page_id s v

  unfoldable pub last_page : ℕ → Slab T → Option (ℕ × Page.Page T)
  last_page zero s = none
  last_page (suc n) s =
      let below = last_page n s in elim (s.pages n) [ none ↦ below | some p ↦ some (n, p) ]

  unfoldable pub drop_page : Slab T → ℕ → Slab T
  drop_page s i = record s { pages = put s.pages i none }

  unfoldable pub compact : Slab T → Slab T
  compact s = elim (last_page num_pages s) [
    | none ↦ s
    | some r ↦ if is_empty r.1 && ltb 0 r.0 then drop_page s r.0 else s
  ]

  unfoldable pub mark_remove : Slab T → Slab T
  mark_remove s =
      let g = (s.generation + 1) % 2 ^ 32 in
      if g % compact_interval == 0
      then compact (record s { generation = g; w_page_id = 0 })
      else record s { generation = g }

  unfoldable pub remove_in :
      Slab T → (id : ℕ) → Option (Page.Page T) → ℕ → Option (Option T × Slab T)
  remove_in s id none key = some (none, s)
  remove_in s id (some p) key = elim (index_in p key) [
    | none ↦ none
    | some i ↦ elim (Page.remove p i) [
      | none ↦ none
      | some r ↦ some (r.0, mark_remove (with_page s id r.1))
    ]
  ]

  unfoldable pub remove : Slab T → ℕ → Option (Option T × Slab T)
  remove s key = remove_in s (get_page_id key) (s.pages (get_page_id key)) key
