-- ===== src/Acquisition/Worker/Passes/Termination.antt =====
-- worker.py: the `while True` over the Tor lanes ends.
use airflow_kbo.Prelude.{ℕ, ◌<◌, ◌≡◌, true, false, not, ◌||◌, Option, some, ◌⊎◌}
use airflow_kbo.Action.{Action, Result, ok, err, Exception}
use airflow_kbo.Acquisition.Models.{tor_lanes_exhausted}
use airflow_kbo.Acquisition.Policy.{is_tor_escalation_reason}
use airflow_kbo.Acquisition.Tor.{Coordinator, escalate_on_captcha, restart_loop_cycle}
use airflow_kbo.Acquisition.Tor.Lanes.{IsOnLane, moves_left}
use airflow_kbo.Acquisition.Worker.{Run, Outcome}

-- No lane is left and no cycle may start.
pub IsSpent : Coordinator → Type 0
IsSpent c = ((escalate_on_captcha c).0 ≡ false) × ((restart_loop_cycle c).0 ≡ false)

-- How the lanes loop ends: with an exception of the code that it calls, with an outcome that no
-- other lane would change, or with the lanes exhausted.
pub IsConcluded : Result (Option Outcome) → Coordinator → Type 0
IsConcluded r c =
    ((e : Exception) × (r ≡ err e))
    ⊎ ((outcome : Outcome) × (r ≡ ok (some outcome))
        × (((outcome.ok || not (is_tor_escalation_reason outcome.reason)) ≡ true)
            ⊎ ((outcome.ok ≡ false) × (outcome.reason ≡ tor_lanes_exhausted) × IsSpent c)))

module _ {S : Type 0} where
  Ends : Result (Option Outcome) × Run S → Type 0
  Ends (r, s) = IsOnLane s.coordinator × IsConcluded r s.coordinator

  -- The rest of the loop ends from every coordinator with fewer than `fuel` moves.
  EndsWithin : ℕ → Action (Run S) (Option Outcome) → Type 0
  EndsWithin fuel m =
      (s : Run S) → IsOnLane s.coordinator → moves_left s.coordinator < fuel → Ends (m s)
