-- ===== src/Qualification/Gate/Runs.antt =====
-- Any number of runs of the gate in one day, for one workspace.
use cmo_agent.Common.{
  ℕ, suc, ◌+◌, ◌≤◌, String, ◌≡◌, ◌≢◌, ◌⊎◌, inl, inr, refl, none, some, List, [], ◌∷◌, All, max,
  arith, subst,
}
use cmo_agent.Float.{Float}
use cmo_agent.Redis.{Redis}
use cmo_agent.Guardrails.SendCaps.{Dates, daily_ws_key, weekly_ws_key}
use cmo_agent.Guardrails.SendCaps.Runs.{one_call}
use cmo_agent.Qualification.State.{QualificationState}
use cmo_agent.Qualification.Gate.{Outcome, triggered, skipped, account_id_of}
use cmo_agent.Qualification.Gate.Flow.{GateError, World, Setup}
use cmo_agent.Qualification.Gate.Laws.{outcome, after, triggered-reads, skipped-store}

module _ (fl : Float) (R : Redis) (prefix : String) (now : Dates) (u : Setup fl R prefix now) where
  open R use {Store, counter}

  abbrev count_triggered : GateError ⊎ Outcome → ℕ → ℕ
  count_triggered (inr triggered) n = suc n
  count_triggered (inr (skipped r)) n = n
  count_triggered (inl e) n = n

  -- how many of the runs let an account through, and the world after them
  unfoldable pub gates :
      List (QualificationState fl) → World fl R prefix now → ℕ × World fl R prefix now
  gates [] w = (0, w)
  gates (s ∷ states) w =
      let (n, w') = gates states (after fl R prefix now u s w) in
      (count_triggered (outcome fl R prefix now u s w) n, w')

  outcome-cases :
      (o : GateError ⊎ Outcome)
      → (o ≡ inr triggered) ⊎ ((o ≢ inr triggered) × ((n : ℕ) → count_triggered o n ≡ n))
  outcome-cases (inr triggered) = inl refl
  outcome-cases (inr (skipped r)) = inr (λ h. cc h, λ n. refl)
  outcome-cases (inl e) = inr (λ h. cc h, λ n. refl)

  -- The count of one key of the workspace before and after a run, for the day and for the week.
  abbrev Counted : (Store → ℕ) → ℕ → World fl R prefix now → World fl R prefix now → ℕ → Type 0
  Counted count limit w w' n =
      (n + count w.store ≤ count w'.store) × (count w'.store ≤ max limit (count w.store))

  abbrev daily_count : String → Store → ℕ
  daily_count ws store = counter store (daily_ws_key R prefix now ws)

  abbrev weekly_count : String → Store → ℕ
  weekly_count ws store = counter store (weekly_ws_key R prefix now ws)

  one_gate :
      (s : QualificationState fl) (w : World fl R prefix now)
      → let o = outcome fl R prefix now u s w in
        let w' = after fl R prefix now u s w in
        Counted (daily_count s.workspace_id) 25 w w' (count_triggered o 0)
        × Counted (weekly_count s.workspace_id) 100 w w' (count_triggered o 0)
  one_gate s w =
      let call =
        one_call R prefix now s.workspace_id none (some (account_id_of s.current_account))
          w.store in
      elim (outcome-cases (outcome fl R prefix now u s w)) [
        | inl passed ↦ ground (arith, call, triggered-reads fl R prefix now u s w passed)
        | inr (stopped, same) ↦ elim (skipped-store fl R prefix now u s w stopped) [
          | inl e ↦ ground (arith, same 0)
          | inr e ↦ ground (arith, same 0, call)
        ]
      ]

  count_triggered-split :
      (o : GateError ⊎ Outcome) (n : ℕ) → count_triggered o n ≡ count_triggered o 0 + n
  count_triggered-split o n = ground arith

  -- However many accounts of one workspace reach the gate on one day, the number that it lets through
  -- is covered by what the counters of the workspace have grown by, and these do not pass the default
  -- caps of 25 a day and 100 a week unless they had passed them before.
  pub gates-le-caps :
      (ws : String) (states : List (QualificationState fl)) (w : World fl R prefix now)
      → All (λ s. s.workspace_id ≡ ws) states
      → let (n, w') = gates states w in
        (n + daily_count ws w.store ≤ daily_count ws w'.store)
        × (daily_count ws w'.store ≤ max 25 (daily_count ws w.store))
        × (n + weekly_count ws w.store ≤ weekly_count ws w'.store)
        × (weekly_count ws w'.store ≤ max 100 (weekly_count ws w.store))
  unfolding gates
  gates-le-caps ws [] w h = omega arith
  gates-le-caps ws (s ∷ states) w h =
      let w' = after fl R prefix now u s w in
      omega (
        arith,
        subst
            (λ v.
              Counted (daily_count v) 25 w w' (count_triggered (outcome fl R prefix now u s w) 0)
              × Counted (weekly_count v) 100 w w'
                  (count_triggered (outcome fl R prefix now u s w) 0))
            h.0 (one_gate s w),
        gates-le-caps ws states w' h.1,
        count_triggered-split (outcome fl R prefix now u s w) (gates states w').0,
      )
