-- ===== src/Instance/Ready.antt =====
-- The wait for the system of initialized.rs: at most so many questions, and what they decide.
use celily.Prelude.{
  ℕ, zero, suc, ◌<◌, ◌≡◌, ◌↔◌, refl, true, false, ◌∷◌, Bool-cases, inl, inr, arith,
}
use celily.Prelude.Text.{Text}
use celily.Effects.{History, run}
use celily.Instance.{Call, Answer}
use celily.Instance.Start.{state_call, says_running, wait_ready}

module _ {E : Type 0} (world : History Call (Answer E) → Call → Answer E) (name : Text) where
  -- The history after so many more questions.
  unfoldable pub after : ℕ → History Call (Answer E) → History Call (Answer E)
  after zero h = h
  after (suc k) h = after k ((state_call name, world h (state_call name)) ∷ h)

  -- A question that comes after the first.
  earlier :
      (h : History Call (Answer E)) (n : ℕ)
      → says_running (world h (state_call name)) ≡ false
      → (k : ℕ) → k < suc n
      → says_running (world (after k h) (state_call name)) ≡ true
      → let h' : History Call (Answer E) = (state_call name, world h (state_call name)) ∷ h in
        (j : ℕ) × (j < n) × (says_running (world (after j h') (state_call name)) ≡ true)
  unfolding after
  earlier h n silent zero low said = cc
  earlier h n silent (suc k) low said = (k, omega (arith, low), said)

  -- The wait ends, and with success exactly when one of so many answers in a row, from the first,
  -- says that the system runs.
  pub wait_ready_iff :
      (n : ℕ) (h : History Call (Answer E))
      → ((run world (wait_ready name n) h).0 ≡ true)
        ↔ ((k : ℕ) × (k < n) × (says_running (world (after k h) (state_call name)) ≡ true))
  unfolding run wait_ready after
  wait_ready_iff zero h = (λ e. cc, λ p. absurd (omega (arith, p.1)))
  wait_ready_iff (suc n) h = elim (Bool-cases (says_running (world h (state_call name)))) [
    | inl said ↦ rw (said, run) (λ _. (0, omega arith, said), λ _. refl)
    | inr silent ↦
        rw (silent, run)
          (
            λ e.
                let (k, low, said) =
                  (wait_ready_iff n ((state_call name, world h (state_call name)) ∷ h)).0 e in
                (suc k, omega (arith, low), said),
            λ p.
                (wait_ready_iff n ((state_call name, world h (state_call name)) ∷ h)).1
                  (earlier h n silent p.0 p.1 p.2),
          )
  ]
