-- ===== src/Slab/Page.antt =====
-- crates/monoio/src/utils/slab.rs, `Page`: a buffer of fixed size whose vacant slots form a list.
-- `none` is a failed assertion or undefined behaviour: a read of memory that is not initialized, an
-- access out of bounds, or a branch that the source calls unreachable.
pub mod Chain
pub mod Fine
pub mod Alloc
pub mod Remove
use nirvana_dev.Prelude.{
  ℕ, ◌+◌, ◌-◌, Bool, true, false, Option, none, some, ltb, leb, ◌==◌, if◌then◌else◌,
}

pub data Entry (T : Type 0) : Type 0 where
  vacant : ℕ → Entry T
  occupied : T → Entry T

-- `none` is a slot that was never written.
pub record Page (T : Type 0) : Type 0 where
  pub slots : ℕ → Option (Entry T)
  pub size : ℕ
  pub used : ℕ
  pub initialized : ℕ
  pub next : ℕ
  pub prev_len : ℕ

unfoldable pub put {ℓ} : {A : Type ℓ} → (ℕ → A) → ℕ → A → ℕ → A
put s i x j = if j == i then x else s j

module _ {T : Type 0} where
  abbrev pub as_ref : Entry T → Option T
  as_ref (vacant _) = none
  as_ref (occupied v) = some v

  abbrev pub is_vacant : Entry T → Bool
  is_vacant (vacant _) = true
  is_vacant (occupied _) = false

  unfoldable pub new : (size prev_len : ℕ) → Page T
  new size prev_len = record {
    slots = λ _. none;
    size = size;
    used = 0;
    initialized = 0;
    next = 0;
    prev_len = prev_len;
  }

  unfoldable pub is_empty : Page T → Bool
  is_empty p = p.used == 0

  unfoldable pub is_full : Page T → Bool
  is_full p = p.used == p.size

  -- `slots.get_unchecked(i).assume_init_ref()`
  unfoldable pub assume_init : Page T → ℕ → Option (Entry T)
  assume_init p i = if ltb i p.size then p.slots i else none

  abbrev pub alloc_vacant : Page T → Option (Entry T) → Option (Option ℕ × Page T)
  alloc_vacant p none = none
  alloc_vacant p (some (occupied _)) = none
  alloc_vacant p (some (vacant n)) = some (some p.next, record p { next = n; used = p.used + 1 })

  unfoldable pub alloc : Page T → Option (Option ℕ × Page T)
  alloc p =
      if is_full p
      then if p.next == p.size then some (none, p) else none
      else if leb p.initialized p.next
      then (if p.next == p.initialized
          then some (
            some p.next,
            record p { initialized = p.initialized + 1; next = p.next + 1; used = p.used + 1 },
          )
          else none)
      else alloc_vacant p (assume_init p p.next)

  unfoldable pub set : Page T → ℕ → T → Option (Page T)
  set p i v =
      if ltb i p.size then some (record p { slots = put p.slots i (some (occupied v)) }) else none

  -- `alloc` and `set`, as `insert` of the slab calls them.
  unfoldable pub alloc_set : Page T → T → Option (Option ℕ × Page T)
  alloc_set p v = elim (alloc p) [
    | none ↦ none
    | some r ↦ elim (r.0) [
      | none ↦ some r
      | some i ↦ elim (set r.1 i v) [ none ↦ none | some p' ↦ some (some i, p') ]
    ]
  ]

  unfoldable pub get : Page T → ℕ → Option (Option T)
  get p i =
      if leb p.initialized i
      then some none
      else elim (assume_init p i) [ none ↦ none | some e ↦ some (as_ref e) ]

  unfoldable pub get_entry : Page T → ℕ → Option (Option (Entry T))
  get_entry p i =
      if leb p.initialized i
      then some none
      else elim (assume_init p i) [ none ↦ none | some e ↦ some (some e) ]

  -- What a caller reads through the entry.
  abbrev pub read_entry : Option (Option (Entry T)) → Option (Option T)
  read_entry none = none
  read_entry (some none) = some none
  read_entry (some (some e)) = some (as_ref e)

  abbrev pub remove_entry : Page T → ℕ → Option (Entry T) → Option (Option T × Page T)
  remove_entry p i none = none
  remove_entry p i (some (vacant _)) = some (none, p)
  remove_entry p i (some (occupied v)) =
      if leb 1 p.used
      then some (
        some v,
        record p { slots = put p.slots i (some (vacant p.next)); next = i; used = p.used - 1 },
      )
      else none

  unfoldable pub remove : Page T → ℕ → Option (Option T × Page T)
  remove p i = if leb p.initialized i then some (none, p) else remove_entry p i (assume_init p i)
