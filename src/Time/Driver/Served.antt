-- ===== src/Time/Driver/Served.antt =====
-- crates/monoio/src/time/driver/mod.rs, `process_at_time`: what is done to each timer and which
-- wakers are woken.
use nirvana_dev.Prelude.{
  ℕ, ◌+◌, ◌^◌, ◌≤◌, ◌<◌, false, ◌==◌, List, [], ◌∷◌, Option, none, some, ◌≡◌, inl, inr, refl, sym,
  ◌∙◌, arith,
}
use nirvana_dev.Time.Entry.{TimerShared, state_deregistered}
use nirvana_dev.Time.Wheel.{Wheel}
use nirvana_dev.Time.Wheel.Counts.{count, one_if}
use nirvana_dev.Time.Wheel.Fine.{IsWheel}
use nirvana_dev.Time.Wheel.Next.{no_one}
use nirvana_dev.Time.Wheel.Process.{Moved}
use nirvana_dev.Time.Driver.{cons_some}
use nirvana_dev.Time.Driver.Fire.{IsDue, Served, fired, kept}

-- The wakers that are woken are those of the timers that are due.
pub record IsWoken (now : ℕ) (timers : ℕ → TimerShared) (wakers : List ℕ) : Type 0 where
  pub each : (i k : ℕ) → IsDue now (timers i) → (timers i).waker ≡ some k → 1 ≤ count k wakers
  pub only :
      (k : ℕ) → 1 ≤ count k wakers → (i : ℕ) × IsDue now (timers i) × ((timers i).waker ≡ some k)

-- The driver ran through all the timers that are due.
pub record Fired (now : ℕ) (w : Wheel) (run : Option (Wheel × List ℕ)) : Type 0 where
  pub wheel : Wheel
  pub wakers : List ℕ
  pub runs : run ≡ some (wheel, wakers)
  pub fine : IsWheel now no_one wheel
  pub time : wheel.elapsed ≡ now
  pub unqueued : wheel.pending ≡ []
  pub served : (i : ℕ) → Served now (w.timers i) (wheel.timers i)
  pub woken : IsWoken now w.timers wakers

pub count-cons_some :
    (k : ℕ) (o : Option ℕ) (ks : List ℕ)
    → count k (cons_some o ks) ≡ elim o [ none ↦ 0 | some j ↦ one_if (k == j) ] + count k ks
unfolding count
count-cons_some k none ks = omega arith
count-cons_some k (some j) ks = refl

pub count_head : (k : ℕ) (ks : List ℕ) → 1 ≤ count k (k ∷ ks)
unfolding count
count_head k ks = ground arith

module _ (now : ℕ) (small : now < 2 ^ 62) where
  -- A timer that is moved stays due or not due.
  pub Moved-IsDue : (a b : TimerShared) → Moved now a b → IsDue now b → IsDue now a
  Moved-IsDue a b m due = elim m.state [
    | inl same ↦ elim due [ inl le ↦ inl (rw (← same) le) | inr p ↦ inr (sym same ∙ p) ]
    | inr (le, queued) ↦ inl le
  ]

  pub IsDue-Moved : (a b : TimerShared) → Moved now a b → IsDue now a → IsDue now b
  IsDue-Moved a b m due = elim m.state [
    | inl same ↦ elim due [ inl le ↦ inl (rw same le) | inr p ↦ inr (same ∙ p) ]
    | inr (le, queued) ↦ inr queued
  ]

  pub Moved-registered :
      (a b : TimerShared)
      → Moved now a b
      → (b.state == state_deregistered) ≡ (a.state == state_deregistered)
  Moved-registered a b m = elim m.state [
    | inl same ↦ rw same refl
    | inr (le, queued) ↦
        let on : (a.state == state_deregistered) ≡ false = ground arith in
        let on' : (b.state == state_deregistered) ≡ false = ground arith in on' ∙ sym on
  ]

  -- A timer that moved, or that was fired, and is then served, is served.
  pub then-Served : (a b c : TimerShared) → Moved now a b → Served now b c → Served now a c
  then-Served a b c m (fired due off result waker) = fired (Moved-IsDue a b m due) off result waker
  then-Served a b c m (kept wait idle state result waker) = elim m.state [
    | inl same ↦
        kept (rw (← same) wait) (λ p. idle (same ∙ p)) (state ∙ same) (result ∙ m.result)
          (waker ∙ m.waker)
    | inr (le, queued) ↦ absurd (idle queued)
  ]
