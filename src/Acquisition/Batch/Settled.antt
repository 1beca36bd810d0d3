-- ===== src/Acquisition/Batch/Settled.antt =====
-- worker.py: every enterprise that a batch claims leaves SCRAPING.
use airflow_kbo.Prelude.{
  ℕ, String, ◌≡◌, refl, ap, ◌∙◌, Bool, true, false, Option, none, some, List, [], ◌∷◌, ◌==◌,
}
use airflow_kbo.Text.{Unicode}
use airflow_kbo.Action.{Result, ok, err}
use airflow_kbo.Storage.Paths.{IsNumber, normalize_of_IsNumber}
use airflow_kbo.Persistence.Enums.{ProcessingState, scraping, queued_parse, failed_scrape}
use airflow_kbo.Persistence.Session.{Session, StateRow, find_state, IsSound}
use airflow_kbo.Persistence.Repositories.Transition.{
  transition_state_lem, after_transition-IsSound, find-after,
}
use airflow_kbo.Persistence.Repositories.Claims.{find-after_ne}
use airflow_kbo.Persistence.Life.{state_of}
use airflow_kbo.Acquisition.Models.{FetchJob}
use airflow_kbo.Acquisition.Worker.{Outside, SourceAdapter}
use airflow_kbo.Acquisition.Batch.{
  Site, jobs_of, state_after_scrape, scrape_each, finish_scrape, give_up, after_jobs,
  scrape_with_jobs, scrape_enterprise,
}

-- The states after a scrape.
abbrev pub is_scraped : Option ProcessingState → Bool
is_scraped (some queued_parse) = true
is_scraped (some failed_scrape) = true
is_scraped _ = false

-- The state that goes with an answer.
abbrev pub ends_in : Bool → ProcessingState
ends_in true = queued_parse
ends_in false = failed_scrape

state_after_scrape-ends : (b : Bool) → state_after_scrape b ≡ ends_in b
state_after_scrape-ends true = refl
state_after_scrape-ends false = refl

module _ ⦃u : Unicode⦄ where
  -- A scrape returns, and its answer is the state that it leaves; the other rows are as they were.
  abbrev pub Scrapes : String → Session → Result Bool → Session → Type 0
  Scrapes number s answer s' =
      (b : Bool) × (answer ≡ ok b)
      × IsSound s'
      × (state_of (find_state number s') ≡ some (ends_in b))
      × ((k : String) → (number == k) ≡ false → find_state k s' ≡ find_state k s)

module _ ⦃u : Unicode⦄ {S : Type 0} (o : Outside S) (max_retries : ℕ) (worker_id : String) where
  finish_scrape_lem :
      (number : String) (b : Bool) (row : StateRow) (s : Session)
      → IsSound s
      → IsNumber number
      → find_state number s ≡ some row
      → row.state ≡ scraping
      → let out = finish_scrape o max_retries worker_id number b s in Scrapes number s out.0 out.1
  unfolding finish_scrape
  finish_scrape_lem number b row s sound ten found here =
      let target = state_after_scrape b in
      rw
        (transition_state_lem number number row scraping target (some worker_id) none s sound
          (normalize_of_IsNumber number ten) found here)
        (
          b,
          refl,
          after_transition-IsSound number row scraping target (some worker_id) none s sound,
          ap state_of (find-after number row scraping target (some worker_id) none s found here)
              ∙ ap some (state_after_scrape-ends b),
          λ k other. find-after_ne number k row scraping target (some worker_id) none s other,
        )

  give_up_lem :
      (number : String) (row : StateRow) (s : Session)
      → IsSound s
      → IsNumber number
      → find_state number s ≡ some row
      → row.state ≡ scraping
      → let out = give_up o max_retries worker_id number s in Scrapes number s out.0 out.1
  unfolding give_up finish_scrape
  give_up_lem number row s sound ten found here =
      rw
        (transition_state_lem number number row scraping failed_scrape (some worker_id) none s sound
          (normalize_of_IsNumber number ten) found here)
        (
          false,
          refl,
          after_transition-IsSound number row scraping failed_scrape (some worker_id) none s sound,
          ap state_of
              (find-after number row scraping failed_scrape (some worker_id) none s found here),
          λ k other.
              find-after_ne number k row scraping failed_scrape (some worker_id) none s other,
        )

  after_jobs_lem :
      (number : String) (r : Result Bool) (row : StateRow) (s : Session)
      → IsSound s
      → IsNumber number
      → find_state number s ≡ some row
      → row.state ≡ scraping
      → let out = after_jobs o max_retries worker_id number r s in Scrapes number s out.0 out.1
  after_jobs_lem number (ok b) row s sound ten found here =
      finish_scrape_lem number b row s sound ten found here
  after_jobs_lem number (err e) row s sound ten found here =
      give_up_lem number row s sound ten found here

  scrape_with_jobs_lem :
      (number : String) (jobs : List FetchJob) (row : StateRow) (site : Site S)
      → IsSound site.session
      → IsNumber number
      → find_state number site.session ≡ some row
      → row.state ≡ scraping
      → let out = scrape_with_jobs o max_retries worker_id number jobs site in
        Scrapes number site.session out.0 out.1.session
  unfolding scrape_with_jobs
  scrape_with_jobs_lem number [] row site sound ten found here =
      finish_scrape_lem number false row site.session sound ten found here
  scrape_with_jobs_lem number (job ∷ jobs) row site sound ten found here =
      after_jobs_lem number (scrape_each o max_retries worker_id (job ∷ jobs) true site.run).0 row
        site.session sound ten found here

  -- Whatever the sites and the store answer, and also when a job raises, a scrape of an enterprise
  -- in SCRAPING returns: on a sound database it ends in QUEUED_PARSE when the answer is success and
  -- in FAILED_SCRAPE otherwise, and no other row of the states changes.
  pub scrape_enterprise_lem :
      (number : String) (adapters : List SourceAdapter) (row : StateRow) (site : Site S)
      → IsSound site.session
      → IsNumber number
      → find_state number site.session ≡ some row
      → row.state ≡ scraping
      → let out = scrape_enterprise o max_retries worker_id number adapters site in
        Scrapes number site.session out.0 out.1.session
  unfolding scrape_enterprise
  scrape_enterprise_lem number adapters row site sound ten found here =
      scrape_with_jobs_lem number (jobs_of adapters number) row site sound ten found here
