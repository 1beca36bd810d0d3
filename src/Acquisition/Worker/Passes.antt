-- ===== src/Acquisition/Worker/Passes.antt =====
-- worker.py: the passes over many enterprises, one after the other; the thread pool that is used
-- for more than one request at a time is left out.
pub mod Termination
pub mod Statutes
use airflow_kbo.Prelude.{
  ℕ, zero, suc, ◌+◌, ◌-◌, String, ◌≡◌, Bool, true, false, not, ◌&&◌, ◌||◌, Option, none, some, List,
  [], ◌∷◌, ◌++◌, ◌==◌, if◌then◌else◌, any, length, count_if,
}
use airflow_kbo.Text.{Unicode}
use airflow_kbo.Action.{
  Action, Result, ok, err, pure, raise, ◌>>=◌, ◌>>◌, index_error, captcha_blocked,
}
use airflow_kbo.Acquisition.Models.{
  Reason, tor_lanes_exhausted, is_already_stored, is_lanes_exhausted,
}
use airflow_kbo.Acquisition.Policy.{is_tor_escalation_reason}
use airflow_kbo.Acquisition.Tor.{
  KboEgressLane, Coordinator, current_lane, escalate_on_captcha, restart_loop_cycle,
}
use airflow_kbo.Acquisition.Worker.{
  Outside, Run, SourceAdapter, Outcome, scrape_one_enterprise_for_source,
}

module _ {S : Type 0} where
  -- Without another lane: a new cycle, or the end.
  unfoldable pub restart_or_stop :
      Outcome → Action (Run S) (Option Outcome) → Action (Run S) (Option Outcome)
  restart_or_stop outcome again s =
      let (restarted, c) = restart_loop_cycle s.coordinator in
      elim restarted [
        | true ↦ again (record s { coordinator = c })
        | false ↦ (
          ok (some (record outcome { ok = false; reason = tor_lanes_exhausted })),
          record s { coordinator = c },
        )
      ]

  -- A block on the lane: move to the next one, for the whole run.
  unfoldable pub change_lane :
      Outcome → Action (Run S) (Option Outcome) → Action (Run S) (Option Outcome)
  change_lane outcome again s =
      let (escalated, c) = escalate_on_captcha s.coordinator in
      elim escalated [
        | true ↦ again (record s { coordinator = c })
        | false ↦ restart_or_stop outcome again (record s { coordinator = c })
      ]

  -- What is done with the outcome on a lane.
  unfoldable pub after_outcome :
      Outcome → Action (Run S) (Option Outcome) → Action (Run S) (Option Outcome)
  after_outcome outcome again = elim (outcome.ok || not (is_tor_escalation_reason outcome.reason)) [
    | true ↦ pure (some outcome)
    | false ↦ change_lane outcome again
  ]

  abbrev pub lane_or_raise : Option KboEgressLane → Action (Run S) KboEgressLane
  lane_or_raise none = raise index_error
  lane_or_raise (some lane) = pure lane

  -- `coordinator.current_lane()`
  unfoldable pub take_lane : Action (Run S) KboEgressLane
  take_lane s =
      let (lane, c) = current_lane s.coordinator in
      lane_or_raise lane (record s { coordinator = c })

module _ {S : Type 0} where
  -- `break` at a block, and the rest of the loop otherwise.
  abbrev pub stop_or_go :
      Bool
      → List Outcome
      → Reason
      → Action (Run S) (List Outcome × Option Reason)
      → Action (Run S) (List Outcome × Option Reason)
  stop_or_go true outcomes reason rest = pure (outcomes, some reason)
  stop_or_go false outcomes reason rest = rest

module _ ⦃u : Unicode⦄ {S : Type 0} (o : Outside S) (max_retries : ℕ) where
  -- while True, on fuel: `none` where the fuel is used up.
  unfoldable pub scrape_one_bce_tor_lanes :
      ℕ
      → String
      → SourceAdapter
      → String
      → Option (List (String × String))
      → Action (Run S) (Option Outcome)
  scrape_one_bce_tor_lanes zero number adapter source existing = pure none
  scrape_one_bce_tor_lanes (suc fuel) number adapter source existing = do
    lane ← take_lane
    outcome ←
        scrape_one_enterprise_for_source o max_retries number adapter source (some lane) existing
          none
    after_outcome outcome (scrape_one_bce_tor_lanes fuel number adapter source existing)

  -- The loop of `_scrape_statutes_direct_passes` : a block stops the run.
  unfoldable pub statutes_passes :
      List String
      → SourceAdapter
      → Option (List (String × String))
      → List Outcome
      → Action (Run S) (List Outcome × Option Reason)
  statutes_passes [] adapter existing outcomes = pure (outcomes, none)
  statutes_passes (number ∷ numbers) adapter existing outcomes = do
    outcome ←
        scrape_one_enterprise_for_source o max_retries number adapter "statutes" none existing
          (some false)
    stop_or_go (is_tor_escalation_reason outcome.reason) (outcomes ++ outcome ∷ []) outcome.reason
        (statutes_passes numbers adapter existing (outcomes ++ outcome ∷ []))

abbrev pub is_ok : Outcome → Bool
is_ok outcome = outcome.ok

abbrev pub is_stop : Option Reason → Bool
is_stop none = false
is_stop (some reason) = true

abbrev pub was_stored : Outcome → Bool
was_stored outcome = is_already_stored outcome.reason

-- The dict that the pass over the statutes returns.
pub record StatutesReport : Type 0 where
  pub probed : ℕ
  pub succeeded : ℕ
  pub failed : ℕ
  pub skipped_already_stored : ℕ
  pub enterprises : List Outcome
  pub stopped_early : Bool
  pub stop_reason : Option Reason
  pub pending_not_processed : ℕ

-- `len(numbers) - len(outcomes)` and `len(outcomes) - succeeded` do not go below 0: see Statutes.
unfoldable pub statutes_report : List String → List Outcome × Option Reason → StatutesReport
statutes_report numbers (outcomes, stop) = record {
  probed = length outcomes;
  succeeded = count_if is_ok outcomes;
  failed = length outcomes - count_if is_ok outcomes;
  skipped_already_stored = count_if was_stored outcomes;
  enterprises = outcomes;
  stopped_early = is_stop stop;
  stop_reason = stop;
  pending_not_processed = length numbers - length outcomes;
}

unfoldable pub scrape_statutes_direct_passes :
    ⦃u : Unicode⦄
    → {S : Type 0} → Outside S
    → ℕ
    → List String
    → SourceAdapter
    → Option (List (String × String))
    → Action (Run S) StatutesReport
unfolding statutes_passes statutes_report
scrape_statutes_direct_passes o max_retries numbers adapter existing = do
  r ← statutes_passes o max_retries numbers adapter existing []
  pure (statutes_report numbers r)
