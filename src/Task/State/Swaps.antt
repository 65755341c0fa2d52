-- ===== src/Task/State/Swaps.antt =====
-- crates/monoio/src/task/state.rs, `fetch_update_action` and `fetch_update`: the loops that change
-- the word by compare-and-swap.
use nirvana_dev.Prelude.{
  ℕ, ◌≡◌, ◌≢◌, refl, sym, ap, Option, none, some, List, [], ◌∷◌, ◌++◌, ◌==◌, ==_iff, Bool-cases,
  Option-cases, inl, inr, ◌⊎◌, false, arith,
}
use nirvana_dev.Task.State.{UpdateResult, updated, refused, fetch_update_action, fetch_update}

-- The last value of a list, or the one given.
abbrev pub last : ℕ → List ℕ → ℕ
last v [] = v
last v (x ∷ xs) = last x xs

-- Each value differs from the one before it.
abbrev pub Changes : ℕ → List ℕ → Type 0
Changes v [] = Unit
Changes v (x ∷ xs) = (x ≢ v) × Changes x xs

-- What the word is at the next attempt, if another thread has anything to say about it.
abbrev pub Finds : ℕ → List ℕ → Type 0
Finds v [] = Unit
Finds v (x ∷ xs) = x ≡ v

-- `seen` is what the word is at each attempt. Attempts failed while the word was not what had been
-- read before, each giving the value that is read next. The value `v` is the last one read, and it is
-- replaced only where the word is still `v`.
pub record IsAtomic (v : ℕ) (next : Option ℕ) (curr : ℕ) (seen : List ℕ) : Type 0 where
  pub failed : List ℕ
  pub rest : List ℕ
  pub split : seen ≡ failed ++ rest
  pub changed : Changes curr failed
  pub read : v ≡ last curr failed
  pub swapped : (next ≡ none) ⊎ Finds v rest

refused-IsAtomic :
    (curr : ℕ) (next : Option ℕ) (seen : List ℕ) → next ≡ none → IsAtomic curr next curr seen
refused-IsAtomic curr next seen e = record {
  failed = [];
  rest = seen;
  split = refl;
  changed = tt;
  read = refl;
  swapped = inl e;
}

found-IsAtomic :
    (curr : ℕ) (next : Option ℕ) (seen : List ℕ) → Finds curr seen → IsAtomic curr next curr seen
found-IsAtomic curr next seen e = record {
  failed = [];
  rest = seen;
  split = refl;
  changed = tt;
  read = refl;
  swapped = inr e;
}

retry-IsAtomic :
    {v : ℕ} {next : Option ℕ} {seen : List ℕ} (curr actual : ℕ)
    → (actual == curr) ≡ false
    → IsAtomic v next actual seen
    → IsAtomic v next curr (actual ∷ seen)
retry-IsAtomic curr actual q a = record {
  failed = actual ∷ a.failed;
  rest = a.rest;
  split = ap (λ t. actual ∷ t) a.split;
  changed = (λ e. absurd (ground (arith, q, e)), a.changed);
  read = a.read;
  swapped = a.swapped;
}

abbrev pub outcome : (ℕ → Option ℕ) → ℕ → UpdateResult
outcome f v = elim (f v) [ none ↦ refused v | some n ↦ updated n ]

-- Whatever other threads write meanwhile, the result of the loop is that of one application of the
-- function, to the value that the word still has when it is replaced.
pub fetch_update-IsAtomic :
    (f : ℕ → Option ℕ) (curr : ℕ) (seen : List ℕ)
    → ((fetch_update f curr seen).1 ≡ outcome f (fetch_update f curr seen).0)
      × IsAtomic (fetch_update f curr seen).0 (f (fetch_update f curr seen).0) curr seen
unfolding fetch_update
fetch_update-IsAtomic f curr [] = elim (Option-cases (f curr)) [
  | inl e ↦ rw (fetch_update, e) (rw (outcome, e) refl, found-IsAtomic curr _ [] tt)
  | inr (n, e) ↦ rw (fetch_update, e) (rw (outcome, e) refl, found-IsAtomic curr _ [] tt)
]
fetch_update-IsAtomic f curr (actual ∷ seen) =
    let (same, read) = fetch_update-IsAtomic f actual seen in
    elim (Option-cases (f curr)) [
      | inl e ↦
          rw (fetch_update, e) (rw (outcome, e) refl, refused-IsAtomic curr _ (actual ∷ seen) e)
      | inr (n, e) ↦ elim (Bool-cases (actual == curr)) [
        | inl q ↦
            rw (fetch_update, e, q)
              (
                rw (outcome, e) refl,
                found-IsAtomic curr _ (actual ∷ seen) ((==_iff actual curr).0 q),
              )
        | inr q ↦ rw (fetch_update, e, q) (same, retry-IsAtomic curr actual q read)
      ]
    ]

-- Whatever the word is at each attempt, the loop whose function also says what to do gives what one
-- application of it gives, to the value that the word still has when it is replaced: the value that
-- the last failed attempt found, or the first one if none failed.
pub fetch_update_action-IsAtomic :
    {T : Type 0} (f : ℕ → T × Option ℕ) (curr : ℕ) (seen : List ℕ)
    → ((fetch_update_action f curr seen).1 ≡ (f (fetch_update_action f curr seen).0).0)
      × ((fetch_update_action f curr seen).2 ≡ (f (fetch_update_action f curr seen).0).1)
      × IsAtomic (fetch_update_action f curr seen).0 (fetch_update_action f curr seen).2 curr seen
unfolding fetch_update_action
fetch_update_action-IsAtomic f curr [] = (refl, refl, found-IsAtomic curr _ [] tt)
fetch_update_action-IsAtomic f curr (actual ∷ seen) =
    let (same, next, read) = fetch_update_action-IsAtomic f actual seen in
    elim (Option-cases ((f curr).1)) [
      | inl e ↦
          rw (fetch_update_action, e) (refl, sym e, refused-IsAtomic curr none (actual ∷ seen) refl)
      | inr (n, e) ↦ elim (Bool-cases (actual == curr)) [
        | inl q ↦
            rw (fetch_update_action, e, q)
              (refl, sym e, found-IsAtomic curr (some n) (actual ∷ seen) ((==_iff actual curr).0 q))
        | inr q ↦ rw (fetch_update_action, e, q) (same, next, retry-IsAtomic curr actual q read)
      ]
    ]
