-- ===== src/Acquisition/Worker.antt =====
-- packages/acquisition/worker.py: one job, one enterprise, and the passes over many enterprises.
-- The calls of `fetch` and `store_raw_bundle` are the operations of an `Outside`. Delays and log
-- lines are left out; what metrics.py counts is kept as a list of events, the latest first.
pub mod Effects
pub mod Passes
use airflow_kbo.Prelude.{
  ℕ, zero, suc, ◌+◌, String, ◌≡◌, Bool, true, false, not, ◌&&◌, ◌||◌, Option, none, some, List, [],
  ◌∷◌, ◌++◌, ◌==◌, if◌then◌else◌, any, length, count_if,
}
use airflow_kbo.Text.{Unicode}
use airflow_kbo.Action.{
  Action, Result, ok, err, pure, raise, ◌>>=◌, ◌>>◌, Exception, captcha_blocked, worker_error,
}
use airflow_kbo.Acquisition.Models.{
  FetchJob, FetchResult, ValidationAction, store, drop, retry, Reason, unknown, no_jobs,
  already_stored, tor_lanes_exhausted, worker_failed, captcha_suspect, ValidationDecision,
  is_captcha, is_already_stored, is_lanes_exhausted,
}
use airflow_kbo.Acquisition.Policy.{is_tor_escalation_reason}
use airflow_kbo.Acquisition.Validate.{validate_fetch}
use airflow_kbo.Acquisition.Tor.{
  KboEgressLane, Coordinator, LaneName, current_lane, escalate_on_captcha, restart_loop_cycle,
  build_kbo_lanes, start_coordinator,
}

-- fetch.py and storage/raw_store.py as the worker calls them. `fetch` gets the number of the
-- attempt and the forced lane.
pub record Outside (S : Type 0) : Type 0 where
  pub fetch : FetchJob → ℕ → Option KboEgressLane → Action S FetchResult
  pub store_raw_bundle : FetchJob → FetchResult → ℕ → Action S Unit

-- `stored` is noted when a response is handed to the raw store, whether the store raises or not.
pub data Event : Type 0 where
  attempted : String → Event
  fetched : FetchJob → Event
  stored : FetchJob → FetchResult → Event
  failed : String → Reason → Event
  succeeded : String → Event

-- The outside state, the shared coordinator, and the events.
pub record Run (S : Type 0) : Type 0 where
  pub world : S
  pub coordinator : Coordinator
  pub events : List Event

-- adapter.py: a source, and the documents that it asks for.
pub record SourceAdapter : Type 0 where
  pub source : String
  pub build_urls : String → List FetchJob

-- The dict that a scrape of one enterprise returns.
pub record Outcome : Type 0 where
  pub enterprise_number : String
  pub source : String
  pub ok : Bool
  pub reason : Reason

-- The variables of the loop over the jobs of an enterprise.
pub record Progress : Type 0 where
  pub job_ok : Bool
  pub last_reason : Reason
  pub fetched_any : Bool

abbrev pub is_some_lane : Option KboEgressLane → Bool
is_some_lane none = false
is_some_lane (some lane) = true

abbrev pub or_else : Option Bool → Bool → Bool
or_else none b = b
or_else (some a) b = a

-- `(number, doc_type) in existing_success`, false where that is None.
abbrev pub is_stored_already : Option (List (String × String)) → String → String → Bool
is_stored_already none number doc_type = false
is_stored_already (some pairs) number doc_type = any (λ p. p.0 == number && p.1 == doc_type) pairs

module _ {S : Type 0} where
  abbrev pub note : Event → Action (Run S) Unit
  note e s = (ok tt, record s { events = e ∷ s.events })

  abbrev pub outside : {A : Type 0} → Action S A → Action (Run S) A
  outside m s = let (r, w) = m s.world in (r, record s { world = w })

module _ {S : Type 0} (o : Outside S) where
  unfoldable pub fetch_job : FetchJob → ℕ → Option KboEgressLane → Action (Run S) FetchResult
  fetch_job job attempt lane = do note (fetched job); outside (o.fetch job attempt lane)

  unfoldable pub store_job : FetchJob → FetchResult → ℕ → Action (Run S) Unit
  store_job job result attempt = do
    note (stored job result)
    outside (o.store_raw_bundle job result attempt)

  -- What a decision without a captcha leads to; `again` is the rest of the loop.
  unfoldable pub settle_action :
      FetchJob
      → ℕ
      → FetchResult
      → Reason
      → Action (Run S) (Bool × Reason)
      → ValidationAction
      → Action (Run S) (Bool × Reason)
  settle_action job attempt result reason again store = do
    store_job job result attempt
    note (succeeded job.source)
    pure (true, reason)
  settle_action job attempt result reason again drop = do
    note (failed job.source reason)
    pure (false, reason)
  settle_action job attempt result reason again retry = again

  -- One turn of the loop after the fetch.
  unfoldable pub settle :
      FetchJob
      → Bool
      → ℕ
      → FetchResult
      → ValidationDecision
      → Action (Run S) (Bool × Reason)
      → Action (Run S) (Bool × Reason)
  settle job abort attempt result decision again = elim (is_captcha decision.reason_code) [
    | true ↦ do
      note (failed job.source captcha_suspect)
      if abort then raise captcha_blocked else pure (false, decision.reason_code)
    | false ↦ settle_action job attempt result decision.reason_code again decision.action
  ]

module _ ⦃u : Unicode⦄ {S : Type 0} (o : Outside S) where
  -- for attempt in range(1, max_attempts + 1), with the number of attempts that are left.
  unfoldable pub attempts :
      ℕ → ℕ → Reason → FetchJob → Option KboEgressLane → Bool → Action (Run S) (Bool × Reason)
  attempts zero attempt last job lane abort = do note (failed job.source last); pure (false, last)
  attempts (suc left) attempt last job lane abort = do
    result ← fetch_job o job attempt lane
    settle o job abort attempt result (validate_fetch result)
        (attempts left (suc attempt) (validate_fetch result).reason_code job lane abort)

-- `break` on a lane that is to be left.
abbrev pub leaves_lane : Option KboEgressLane → Bool × Reason → Bool
leaves_lane lane (job_ok, reason) =
    not job_ok && (is_some_lane lane && is_tor_escalation_reason reason)

abbrev pub after_job : Progress → Bool × Reason → Progress
after_job p (job_ok, reason) = record {
  job_ok = p.job_ok && job_ok;
  last_reason = reason;
  fetched_any = true;
}

-- With a lane a captcha does not raise, unless it is asked for.
abbrev pub lane_default : Option KboEgressLane → Option Bool → Option Bool
lane_default lane (some b) = some b
lane_default none none = none
lane_default (some lane) none = some false

abbrev pub outcome_of : String → String → Progress → Outcome
outcome_of number source p =
    if not p.fetched_any && is_already_stored p.last_reason
    then record { enterprise_number = number; source = source; ok = true; reason = already_stored }
    else record {
      enterprise_number = number;
      source = source;
      ok = p.job_ok;
      reason = p.last_reason;
    }

module _ ⦃u : Unicode⦄ {S : Type 0} (o : Outside S) (max_retries : ℕ) where
  -- `_process_job`; `raise_on_captcha` is by default true without a lane.
  unfoldable pub process_job :
      FetchJob → Option KboEgressLane → Option Bool → Action (Run S) (Bool × Reason)
  process_job job lane raise_on_captcha = do
    note (attempted job.source)
    attempts o max_retries 1 unknown job lane (or_else raise_on_captcha (not (is_some_lane lane)))

  -- The loop over the jobs.
  unfoldable pub scrape_jobs :
      List FetchJob
      → String
      → Option KboEgressLane
      → Option (List (String × String))
      → Option Bool
      → Progress
      → Action (Run S) Progress
  scrape_jobs [] number lane existing raise_on_captcha p = pure p
  scrape_jobs (job ∷ jobs) number lane existing raise_on_captcha p =
      elim (is_stored_already existing number job.doc_type) [
        | true ↦
            scrape_jobs jobs number lane existing raise_on_captcha
              (record p { last_reason = already_stored })
        | false ↦ do
          r ← process_job job lane (lane_default lane raise_on_captcha)
          elim (leaves_lane lane r) [
            | true ↦ pure (after_job p r)
            | false ↦ scrape_jobs jobs number lane existing raise_on_captcha (after_job p r)
          ]
      ]

  -- With no job there is nothing to fetch.
  unfoldable pub scrape_all :
      List FetchJob
      → String
      → String
      → Option KboEgressLane
      → Option (List (String × String))
      → Option Bool
      → Action (Run S) Outcome
  scrape_all [] number source lane existing raise_on_captcha =
      pure (record { enterprise_number = number; source = source; ok = false; reason = no_jobs })
  scrape_all (job ∷ jobs) number source lane existing raise_on_captcha = do
    p ←
        scrape_jobs (job ∷ jobs) number lane existing raise_on_captcha
          (record { job_ok = true; last_reason = unknown; fetched_any = false })
    pure (outcome_of number source p)

  unfoldable pub scrape_one_enterprise_for_source :
      String
      → SourceAdapter
      → String
      → Option KboEgressLane
      → Option (List (String × String))
      → Option Bool
      → Action (Run S) Outcome
  unfolding scrape_all
  scrape_one_enterprise_for_source number adapter source lane existing raise_on_captcha =
      scrape_all (adapter.build_urls number) number source lane existing raise_on_captcha
