-- ===== src/Task/State/Flags.antt =====
-- crates/monoio/src/task/state.rs: the word as a reference count and five flags.
use nirvana_dev.Prelude.{
  ℕ, ◌+◌, ◌-◌, ◌*◌, ◌^◌, ◌<◌, ◌≡◌, refl, ap, ◌∙◌, Bool, true, false, not, ◌&&◌, arith, ◌==◌, ==_iff,
  if◌then◌else◌,
}
use nirvana_dev.Prelude.Bits.{
  bit_and, bit_or, bit_xor, bit_and-words, bit_and-low, bit_or-low, bit_xor-low, bit_and-ones,
}
use nirvana_dev.Task.State.{
  complement, running, complete, notified, join_interest, join_waker, is_idle, is_notified,
  unset_notified, set_notified, is_running, set_running, unset_running, is_complete,
  is_join_interested, unset_join_interested_bit, has_join_waker, set_join_waker_bit,
  unset_join_waker_bit, ref_count,
}

pub record Flags : Type 0 where
  pub refs : ℕ
  pub is_run : Bool
  pub is_done : Bool
  pub is_note : Bool
  pub is_join : Bool
  pub is_wake : Bool

abbrev bit : Bool → ℕ → ℕ
bit b n = if b then n else 0

abbrev low : Bool → Bool → Bool → Bool → Bool → ℕ
low r c n j w = bit r 1 + bit c 2 + bit n 4 + bit j 8 + bit w 16

-- The word of a reference count and flags.
unfoldable pub encode : Flags → ℕ
encode f = 32 * f.refs + low f.is_run f.is_done f.is_note f.is_join f.is_wake

-- Over five Booleans, check every case by evaluation.
abbrev both : (Bool → Bool) → Bool
both p = p true && p false

abbrev all_five : (Bool → Bool → Bool → Bool → Bool → Bool) → Bool
all_five p = both (λ a. both (λ b. both (λ c. both (λ d. both (λ e. p a b c d e)))))

both_sound : (p : Bool → Bool) (b : Bool) → both p ≡ true → p b ≡ true
both_sound p true h = ground arith
both_sound p false h = ground arith

all_five_sound :
    (p : Bool → Bool → Bool → Bool → Bool → Bool) (a b c d e : Bool)
    → all_five p ≡ true
    → p a b c d e ≡ true
all_five_sound p a b c d e h =
    both_sound (λ e. p a b c d e) e
      (both_sound (λ d. both (λ e. p a b c d e)) d
        (both_sound (λ c. both (λ d. both (λ e. p a b c d e))) c
          (both_sound (λ b. both (λ c. both (λ d. both (λ e. p a b c d e)))) b
            (both_sound (λ a. both (λ b. both (λ c. both (λ d. both (λ e. p a b c d e))))) a h))))

low_lt : (a b c d e : Bool) → low a b c d e < 32
low_lt a b c d e = ground arith

-- The five flags of a word as arguments.
abbrev at_flags {ℓ} : {A : Type ℓ} → (Bool → Bool → Bool → Bool → Bool → A) → Flags → A
at_flags g f = g f.is_run f.is_done f.is_note f.is_join f.is_wake

-- Two functions of the flags that agree by evaluation.
table :
    (f : Flags) (h k : Bool → Bool → Bool → Bool → Bool → ℕ)
    → all_five (λ a b c d e. h a b c d e == k a b c d e) ≡ true
    → at_flags h f ≡ at_flags k f
table f h k t = (==_iff _ _).0 (
    all_five_sound (λ a b c d e. h a b c d e == k a b c d e) f.is_run f.is_done f.is_note f.is_join
      f.is_wake t)

module _ (f : Flags) (m : ℕ) (g : Bool → Bool → Bool → Bool → Bool → ℕ) where
  and_table :
      m < 32
      → all_five (λ a b c d e. bit_and (low a b c d e) m == g a b c d e) ≡ true
      → bit_and (encode f) m ≡ at_flags g f
  unfolding encode
  and_table hm t =
      bit_and-low 5 f.refs (at_flags low f) m (low_lt _ _ _ _ _) hm
      ∙ table f (λ a b c d e. bit_and (low a b c d e) m) g t

  or_table :
      m < 32
      → all_five (λ a b c d e. bit_or (low a b c d e) m == g a b c d e) ≡ true
      → bit_or (encode f) m ≡ 32 * f.refs + at_flags g f
  unfolding encode
  or_table hm t =
      bit_or-low 5 f.refs (at_flags low f) m (low_lt _ _ _ _ _) hm
      ∙ ap (λ x. 32 * f.refs + x) (table f (λ a b c d e. bit_or (low a b c d e) m) g t)

  xor_table :
      m < 32
      → all_five (λ a b c d e. bit_xor (low a b c d e) m == g a b c d e) ≡ true
      → bit_xor (encode f) m ≡ 32 * f.refs + at_flags g f
  unfolding encode
  xor_table hm t =
      bit_xor-low 5 f.refs (at_flags low f) m (low_lt _ _ _ _ _) hm
      ∙ ap (λ x. 32 * f.refs + x) (table f (λ a b c d e. bit_xor (low a b c d e) m) g t)

  unset_table :
      m < 32
      → f.refs < 2 ^ 59
      → all_five (λ a b c d e. bit_and (low a b c d e) (31 - m) == g a b c d e) ≡ true
      → bit_and (encode f) (complement m) ≡ 32 * f.refs + at_flags g f
  unfolding encode
  unset_table hm hr t =
      let split : complement m ≡ 32 * (2 ^ 59 - 1) + (31 - m) = omega arith in
      rw
        (
          split,
          bit_and-words 5 f.refs (at_flags low f) (2 ^ 59 - 1) (31 - m) (low_lt _ _ _ _ _)
              (omega arith),
          bit_and-ones 59 f.refs hr,
        )
        (ap (λ x. 32 * f.refs + x) (table f (λ a b c d e. bit_and (low a b c d e) (31 - m)) g t))

-- The tests read their flag.
module _ (f : Flags) where
  pub is_running-encode : is_running (encode f) ≡ f.is_run
  unfolding is_running
  is_running-encode =
      rw (and_table f running (λ a b c d e. bit a 1) (omega arith) refl) (ground arith)

  pub is_complete-encode : is_complete (encode f) ≡ f.is_done
  unfolding is_complete
  is_complete-encode =
      rw (and_table f complete (λ a b c d e. bit b 2) (omega arith) refl) (ground arith)

  pub is_notified-encode : is_notified (encode f) ≡ f.is_note
  unfolding is_notified
  is_notified-encode =
      rw (and_table f notified (λ a b c d e. bit c 4) (omega arith) refl) (ground arith)

  pub is_join_interested-encode : is_join_interested (encode f) ≡ f.is_join
  unfolding is_join_interested
  is_join_interested-encode =
      rw (and_table f join_interest (λ a b c d e. bit d 8) (omega arith) refl) (ground arith)

  pub has_join_waker-encode : has_join_waker (encode f) ≡ f.is_wake
  unfolding has_join_waker
  has_join_waker-encode =
      rw (and_table f join_waker (λ a b c d e. bit e 16) (omega arith) refl) (ground arith)

  pub is_idle-encode : is_idle (encode f) ≡ (not f.is_run && not f.is_done)
  unfolding is_idle
  is_idle-encode =
      rw (and_table f 3 (λ a b c d e. bit a 1 + bit b 2) (omega arith) refl) (ground arith)

  pub ref_count-encode : f.refs < 2 ^ 59 → ref_count (encode f) ≡ f.refs
  unfolding ref_count
  ref_count-encode hr = rw (unset_table f 31 (λ a b c d e. 0) (omega arith) hr refl) (omega arith)

-- The updates write their flag.
module _ (f : Flags) where
  pub set_running-encode : set_running (encode f) ≡ encode (record f { is_run = true })
  unfolding set_running encode
  set_running-encode = or_table f running (λ a. low true) (omega arith) refl

  pub set_notified-encode : set_notified (encode f) ≡ encode (record f { is_note = true })
  unfolding set_notified encode
  set_notified-encode = or_table f notified (λ a b c. low a b true) (omega arith) refl

  pub set_join_waker_bit-encode :
      set_join_waker_bit (encode f) ≡ encode (record f { is_wake = true })
  unfolding set_join_waker_bit encode
  set_join_waker_bit-encode =
      or_table f join_waker (λ a b c d e. low a b c d true) (omega arith) refl

  pub finish-encode :
      bit_xor (encode f) (bit_or running complete)
      ≡ encode (record f { is_run = not f.is_run; is_done = not f.is_done })
  unfolding encode
  finish-encode = xor_table f 3 (λ a b. low (not a) (not b)) (omega arith) refl

  module _ (hr : f.refs < 2 ^ 59) where
    pub unset_running-encode : unset_running (encode f) ≡ encode (record f { is_run = false })
    unfolding unset_running encode
    unset_running-encode = unset_table f running (λ a. low false) (omega arith) hr refl

    pub unset_notified-encode : unset_notified (encode f) ≡ encode (record f { is_note = false })
    unfolding unset_notified encode
    unset_notified-encode = unset_table f notified (λ a b c. low a b false) (omega arith) hr refl

    pub unset_join_interested_bit-encode :
        unset_join_interested_bit (encode f) ≡ encode (record f { is_join = false })
    unfolding unset_join_interested_bit encode
    unset_join_interested_bit-encode =
        unset_table f join_interest (λ a b c d. low a b c false) (omega arith) hr refl

    pub unset_join_waker_bit-encode :
        unset_join_waker_bit (encode f) ≡ encode (record f { is_wake = false })
    unfolding unset_join_waker_bit encode
    unset_join_waker_bit-encode =
        unset_table f join_waker (λ a b c d e. low a b c d false) (omega arith) hr refl
