-- ===== src/Task/State/Refine.antt =====
-- crates/monoio/src/task/state.rs: on the word of a count and flags each transition does what the
-- specification says.
use mathlib.Core.Option
use nirvana_dev.Prelude.{ℕ, ◌^◌, ◌<◌, ◌≡◌, Bool, true, false, arith}
use nirvana_dev.Task.State.{
  UpdateResult, updated, refused, transition_to_running, transition_to_idle, transition_to_complete,
  transition_to_notified, transition_to_notified_without_submit, drop_join_handle_fast,
  unset_join_interested, set_join_waker, unset_waker, ref_inc, ref_dec,
}
use nirvana_dev.Task.State.Flags.{
  Flags, encode, is_running-encode, is_complete-encode, is_notified-encode,
  is_join_interested-encode, has_join_waker-encode, is_idle-encode, ref_count-encode,
  set_running-encode, set_notified-encode, set_join_waker_bit-encode, finish-encode,
  unset_running-encode, unset_notified-encode, unset_join_interested_bit-encode,
  unset_join_waker_bit-encode,
}
use nirvana_dev.Task.State.Spec.{
  to_running, to_idle, to_complete, to_notified, to_notified_without_submit, drop_join_fast,
  unset_join, set_wake, unset_wake, inc, dec,
}

abbrev pub encode_fst {ℓ} : {A : Type ℓ} → Flags × A → ℕ × A
encode_fst (f, a) = (encode f, a)

-- `Ok` carries the new word, `Err` the old one.
abbrev pub encode_update : Flags × Bool → UpdateResult
encode_update (f, true) = updated (encode f)
encode_update (f, false) = refused (encode f)

module _ (f : Flags) where
  -- `transition_to_notified`: a task that runs is marked, one that is complete or marked stays, and
  -- any other is marked and is to be submitted.
  pub transition_to_notified-encode : transition_to_notified (encode f) ≡ encode_fst (to_notified f)
  unfolding transition_to_notified to_notified
  transition_to_notified-encode =
      rw (is_running-encode f, is_complete-encode f, is_notified-encode f, set_notified-encode f)
        (ground arith)

  -- `transition_to_notified_without_submit`: a task that runs is marked, one that is complete or
  -- marked stays, and any other stays and is left to its thread.
  pub transition_to_notified_without_submit-encode :
      transition_to_notified_without_submit (encode f) ≡ encode_fst (to_notified_without_submit f)
  unfolding transition_to_notified_without_submit to_notified_without_submit
  transition_to_notified_without_submit-encode =
      rw (is_running-encode f, is_complete-encode f, is_notified-encode f, set_notified-encode f)
        (ground arith)

  -- `transition_to_complete`: of a task that runs and is not complete the word says afterwards that
  -- it is complete and does not run; any other fails the assertion.
  pub transition_to_complete-encode :
      transition_to_complete (encode f) ≡ Option.map encode (to_complete f)
  unfolding transition_to_complete to_complete
  transition_to_complete-encode =
      rw (is_running-encode f, is_complete-encode f, finish-encode f) (ground arith)

  -- `set_join_waker`: with join interest and without a join waker the waker bit is set, unless the
  -- task is complete; otherwise an assertion fails.
  pub set_join_waker-encode : set_join_waker (encode f) ≡ Option.map encode_update (set_wake f)
  unfolding set_join_waker set_wake
  set_join_waker-encode =
      rw
        (
          is_join_interested-encode f,
          has_join_waker-encode f,
          is_complete-encode f,
          set_join_waker_bit-encode f,
        )
        (ground arith)

  module _ (hr : f.refs < 2 ^ 58) where
    -- `transition_to_running`, below 2 ^ 58 references: of a marked task that neither runs nor is
    -- complete the word says afterwards that it runs and is not marked; any other fails an
    -- assertion.
    pub transition_to_running-encode :
        transition_to_running (encode f) ≡ Option.map encode (to_running f)
    unfolding transition_to_running to_running
    transition_to_running-encode =
        rw
          (
            is_notified-encode f,
            is_idle-encode f,
            set_running-encode f,
            unset_notified-encode (record f { is_run = true }) (omega arith),
          )
          (ground arith)

    -- `transition_to_idle`, below 2 ^ 58 references: a task that runs stops, and the answer says
    -- whether it was marked meanwhile; any other fails the assertion.
    pub transition_to_idle-encode :
        transition_to_idle (encode f) ≡ Option.map encode_fst (to_idle f)
    unfolding transition_to_idle to_idle
    transition_to_idle-encode =
        rw
          (
            is_running-encode f,
            unset_running-encode f (omega arith),
            is_notified-encode (record f { is_run = false }),
          )
          (ground arith)

    -- `unset_join_interested`, below 2 ^ 58 references: the join interest is given up, unless the
    -- task is complete; without join interest the assertion fails.
    pub unset_join_interested-encode :
        unset_join_interested (encode f) ≡ Option.map encode_update (unset_join f)
    unfolding unset_join_interested unset_join
    unset_join_interested-encode =
        rw
          (
            is_join_interested-encode f,
            is_complete-encode f,
            unset_join_interested_bit-encode f (omega arith),
          )
          (ground arith)

    -- `unset_waker`, below 2 ^ 58 references: the waker bit is cleared, unless the task is
    -- complete; without join interest or without a join waker an assertion fails.
    pub unset_waker-encode : unset_waker (encode f) ≡ Option.map encode_update (unset_wake f)
    unfolding unset_waker unset_wake
    unset_waker-encode =
        rw
          (
            is_join_interested-encode f,
            has_join_waker-encode f,
            is_complete-encode f,
            unset_join_waker_bit-encode f (omega arith),
          )
          (ground arith)

    -- `ref_inc`, below 2 ^ 58 references: the count grows by one, no flag changes, and nothing
    -- aborts.
    pub ref_inc-encode : ref_inc (encode f) ≡ Option.map encode (inc f)
    unfolding ref_inc inc encode
    ref_inc-encode = ground arith

    -- `ref_dec`, below 2 ^ 58 references: the count shrinks by one and no flag changes, and the
    -- answer says whether it was the last reference; without a reference the assertion fails.
    pub ref_dec-encode : ref_dec (encode f) ≡ Option.map encode_fst (dec f)
    unfolding ref_dec dec encode
    ref_dec-encode = rw (ref_count-encode f (omega arith)) (ground arith)

    -- `drop_join_handle_fast`, below 2 ^ 58 references: in the initial state one reference and the
    -- join interest are given up; in any other state nothing changes and the attempt fails.
    pub drop_join_handle_fast-encode :
        drop_join_handle_fast (encode f) ≡ encode_fst (drop_join_fast f)
    unfolding drop_join_handle_fast drop_join_fast encode
    drop_join_handle_fast-encode = ground arith
