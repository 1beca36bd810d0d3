-- ===== src/Acquisition/Batch.antt =====
-- worker.py: the scrape of an enterprise in SCRAPING by all sources, and a batch of such scrapes. The
-- documents are registered by the listener of packages/persistence/bridge.py, in sessions of its
-- own; the session here is that of the batch.
pub mod Settled
pub mod Claimed
pub mod Life
use airflow_kbo.Prelude.{
  ℕ, suc, ◌+◌, String, ◌≡◌, Bool, true, false, ◌&&◌, Option, none, some, List, [], ◌∷◌, ◌++◌,
  if◌then◌else◌, length,
}
use airflow_kbo.Text.{Unicode}
use airflow_kbo.Action.{Action, Result, ok, err, pure, ◌>>=◌, ◌>>◌}
use airflow_kbo.Persistence.Enums.{ProcessingState, scraping, queued_parse, failed_scrape}
use airflow_kbo.Persistence.Session.{Session, StateRow}
use airflow_kbo.Persistence.Repositories.{transition_state, claim_enterprises_for_scrape}
use airflow_kbo.Acquisition.Models.{FetchJob, Reason}
use airflow_kbo.Acquisition.Worker.{Outside, Run, SourceAdapter, process_job}

-- What a worker acts on: the sites and the raw store, and the database.
pub record Site (S : Type 0) : Type 0 where
  pub run : Run S
  pub session : Session

pub record ScrapeReport : Type 0 where
  pub claimed : ℕ
  pub succeeded : ℕ
  pub failed : ℕ
  pub enterprises : List String

unfoldable pub jobs_of : List SourceAdapter → String → List FetchJob
jobs_of [] number = []
jobs_of (adapter ∷ adapters) number = adapter.build_urls number ++ jobs_of adapters number

abbrev pub state_after_scrape : Bool → ProcessingState
state_after_scrape true = queued_parse
state_after_scrape false = failed_scrape

abbrev pub count_scrape : String → Result Bool → ScrapeReport → ScrapeReport
count_scrape number (ok true) r = record r {
  succeeded = suc r.succeeded;
  enterprises = r.enterprises ++ number ∷ [];
}
count_scrape number (ok false) r = record r {
  failed = suc r.failed;
  enterprises = r.enterprises ++ number ∷ [];
}
count_scrape number (err e) r = record r {
  failed = suc r.failed;
  enterprises = r.enterprises ++ number ∷ [];
}

module _ {S : Type 0} where
  -- Commit, or rollback of the session after an exception.
  abbrev pub close_site : {A : Type 0} → Site S → Result A × Site S → Site S
  close_site before (ok a, after) = after
  close_site before (err e, after) = record after {
    session = record before.session { ticks = after.session.ticks };
  }

  abbrev pub on_session : {A : Type 0} → Action Session A → Action (Site S) A
  on_session m site = let (r, s) = m site.session in (r, record site { session = s })

module _ ⦃u : Unicode⦄ {S : Type 0} (o : Outside S) (max_retries : ℕ) (worker_id : String) where
  -- The loop over the jobs: a captcha on a direct request raises.
  unfoldable pub scrape_each : List FetchJob → Bool → Action (Run S) Bool
  scrape_each [] all_ok = pure all_ok
  scrape_each (job ∷ jobs) all_ok = do
    r ← process_job o max_retries job none none
    scrape_each jobs (all_ok && r.0)

  unfoldable pub finish_scrape : String → Bool → Action Session Bool
  finish_scrape number all_ok =
      transition_state number scraping (state_after_scrape all_ok) (some worker_id) none
      >> pure all_ok

  -- try: … except Exception: …; return False
  unfoldable pub give_up : String → Action Session Bool
  unfolding finish_scrape
  give_up number s = (ok false, (finish_scrape number false s).1)

  abbrev pub after_jobs : String → Result Bool → Action Session Bool
  after_jobs number (ok all_ok) = finish_scrape number all_ok
  after_jobs number (err e) = give_up number

  unfoldable pub scrape_with_jobs : String → List FetchJob → Action (Site S) Bool
  unfolding scrape_each finish_scrape give_up
  scrape_with_jobs number [] site = on_session (finish_scrape number false) site
  scrape_with_jobs number (job ∷ jobs) site =
      let (r, run) = scrape_each (job ∷ jobs) true site.run in
      on_session (after_jobs number r) (record site { run = run })

  unfoldable pub scrape_enterprise : String → List SourceAdapter → Action (Site S) Bool
  unfolding scrape_with_jobs jobs_of
  scrape_enterprise number adapters = scrape_with_jobs number (jobs_of adapters number)

  unfoldable pub scrape_claimed :
      List SourceAdapter → List String → ScrapeReport → Site S → ScrapeReport × Site S
  scrape_claimed adapters [] report site = (report, site)
  scrape_claimed adapters (number ∷ numbers) report site =
      let out = scrape_enterprise number adapters site in
      scrape_claimed adapters numbers (count_scrape number out.0 report) (close_site site out)

  abbrev pub after_claim :
      List SourceAdapter → Site S → Result (List String) × Session → Result ScrapeReport × Site S
  after_claim adapters site (err e, after) =
      (err e, record site { session = record site.session { ticks = after.ticks } })
  after_claim adapters site (ok claimed, after) =
      let start : ScrapeReport = record {
        claimed = length claimed;
        succeeded = 0;
        failed = 0;
        enterprises = [];
      } in
      let (report, site') =
        scrape_claimed adapters claimed start (record site { session = after }) in
      (ok report, site')

  -- The claim is committed first; `lock_seconds` has its default.
  unfoldable pub scrape_batch : ℕ → List String → List SourceAdapter → Action (Site S) ScrapeReport
  unfolding scrape_claimed
  scrape_batch limit enterprise_numbers adapters site =
      after_claim adapters site
        (claim_enterprises_for_scrape limit worker_id 300 enterprise_numbers site.session)
