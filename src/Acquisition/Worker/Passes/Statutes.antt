-- ===== src/Acquisition/Worker/Passes/Statutes.antt =====
-- worker.py: the direct pass over the statutes stops at the first block, and its report accounts
-- for every enterprise.
use airflow_kbo.Prelude.{
  ℕ, ◌+◌, ◌≤◌, String, ◌≡◌, Bool, true, false, Option, none, some, List, [], ◌∷◌, ◌++◌, length,
  count_if, All,
}
use airflow_kbo.Text.{Unicode}
use airflow_kbo.Action.{Action, ok}
use airflow_kbo.Acquisition.Models.{Reason}
use airflow_kbo.Acquisition.Policy.{is_tor_escalation_reason}
use airflow_kbo.Acquisition.Worker.{
  Outside, Run, SourceAdapter, Outcome, scrape_one_enterprise_for_source,
}
use airflow_kbo.Acquisition.Worker.Passes.{StatutesReport}

-- An outcome that does not stop the run.
pub IsQuiet : Outcome → Type 0
IsQuiet outcome = is_tor_escalation_reason outcome.reason ≡ false

-- `total` numbers, of which the outcomes are a first part; the run went on to the end, or its last
-- outcome is its first block.
pub IsStoppedAtBlock : ℕ → List Outcome × Option Reason → Type 0
IsStoppedAtBlock total (outcomes, none) = (length outcomes ≡ total) × All IsQuiet outcomes
IsStoppedAtBlock total (outcomes, some reason) =
    (length outcomes ≤ total)
    × ((before : List Outcome) × (last : Outcome) × (outcomes ≡ before ++ last ∷ [])
        × All IsQuiet before
        × (is_tor_escalation_reason last.reason ≡ true)
        × (reason ≡ last.reason))

-- A run stopped early exactly when it has a reason for it.
pub IsEarly : Option Reason → Bool → Type 0
IsEarly none early = early ≡ false
IsEarly (some reason) early = early ≡ true

-- The counts of a report on `total` enterprises add up.
pub IsAccounted : ℕ → StatutesReport → Type 0
IsAccounted total report =
    (report.probed + report.pending_not_processed ≡ total)
    × (report.probed ≡ length report.enterprises)
    × (report.succeeded ≡ count_if (λ (o : Outcome). o.ok) report.enterprises)
    × (report.succeeded + report.failed ≡ report.probed)
    × IsEarly report.stop_reason report.stopped_early
    × IsStoppedAtBlock total (report.enterprises, report.stop_reason)

module _ ⦃u : Unicode⦄ {S : Type 0} (o : Outside S) (max_retries : ℕ) where
  abbrev one : SourceAdapter → Option (List (String × String)) → String → Action (Run S) Outcome
  one adapter existing number =
      scrape_one_enterprise_for_source o max_retries number adapter "statutes" none existing
        (some false)
