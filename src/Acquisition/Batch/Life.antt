-- ===== src/Acquisition/Batch/Life.antt =====
-- worker.py: a batch of scrapes follows the graph of the processing states.
use airflow_kbo.Prelude.{ℕ, String, Bool, true, false, none, some, List, [], ◌∷◌, inl, inr, length}
use airflow_kbo.Text.{Unicode}
use airflow_kbo.Action.{Result, ok, err, Result-cases, pure}
use airflow_kbo.Persistence.Enums.{scraping}
use airflow_kbo.Persistence.Session.{StateRow, IsSound}
use airflow_kbo.Persistence.Repositories.{transition_state, claim_enterprises_for_scrape}
use airflow_kbo.Persistence.Life.{◌⟶◌, scraped, not_scraped, Evolves, Evolves-refl, Evolves-trans}
use airflow_kbo.Persistence.Life.Steps.{Lives, Lives-bind, pure-Lives, transition_state-Lives}
use airflow_kbo.Persistence.Life.Writes.{claim_enterprises_for_scrape-Lives}
use airflow_kbo.Extraction.Worker.Life.{rollback-Lives}
use airflow_kbo.Acquisition.Models.{FetchJob}
use airflow_kbo.Acquisition.Worker.{Outside, SourceAdapter}
use airflow_kbo.Acquisition.Batch.{
  Site, ScrapeReport, jobs_of, state_after_scrape, count_scrape, close_site, scrape_each,
  finish_scrape, give_up, after_jobs, scrape_with_jobs, scrape_enterprise, scrape_claimed,
  scrape_batch,
}

scrape_edge : (b : Bool) → some scraping ⟶ some (state_after_scrape b)
scrape_edge true = scraped
scrape_edge false = not_scraped

module _ ⦃u : Unicode⦄ {S : Type 0} (o : Outside S) (max_retries : ℕ) (worker_id : String) where
  -- The database of a site is sound, and its enterprises have moved along the graph.
  abbrev pub SiteLives : Site S → Site S → Type 0
  SiteLives before after = IsSound after.session × Evolves before.session after.session

  finish_scrape-Lives :
      (number : String) (b : Bool) → Lives (finish_scrape o max_retries worker_id number b)
  unfolding finish_scrape
  finish_scrape-Lives number b =
      Lives-bind {A = StateRow} {B = Bool}
        (transition_state number scraping (state_after_scrape b) (some worker_id) none)
        (λ row. pure b)
        (transition_state-Lives number scraping (state_after_scrape b) (some worker_id) none
          (scrape_edge b))
        (λ row. pure-Lives {A = Bool} (ok b))

  after_jobs-Lives :
      (number : String) (r : Result Bool) → Lives (after_jobs o max_retries worker_id number r)
  unfolding give_up
  after_jobs-Lives number (ok b) s sound = finish_scrape-Lives number b s sound
  after_jobs-Lives number (err e) s sound = finish_scrape-Lives number false s sound

  scrape_enterprise-Lives :
      (number : String) (jobs : List FetchJob) (site : Site S)
      → IsSound site.session
      → SiteLives site (scrape_with_jobs o max_retries worker_id number jobs site).1
  unfolding scrape_with_jobs
  scrape_enterprise-Lives number [] site sound = finish_scrape-Lives number false site.session sound
  scrape_enterprise-Lives number (job ∷ jobs) site sound =
      after_jobs-Lives number (scrape_each o max_retries worker_id (job ∷ jobs) true site.run).0
        site.session sound

  close_site-Lives :
      {A : Type 0} (before : Site S) (out : Result A × Site S)
      → IsSound before.session
      → SiteLives before out.1
      → SiteLives before (close_site before out)
  close_site-Lives before (ok a, after) sound h = h
  close_site-Lives before (err e, after) sound h = rollback-Lives before.session after.session sound

  scrape_claimed-Lives :
      (adapters : List SourceAdapter) (numbers : List String) (report : ScrapeReport)
      (site : Site S)
      → IsSound site.session
      → SiteLives site (scrape_claimed o max_retries worker_id adapters numbers report site).1
  unfolding scrape_claimed scrape_enterprise
  scrape_claimed-Lives adapters [] report site sound = (sound, Evolves-refl site.session)
  scrape_claimed-Lives adapters (number ∷ numbers) report site sound =
      let out = scrape_enterprise o max_retries worker_id number adapters site in
      let (sound', life) =
        close_site-Lives site out sound
          (scrape_enterprise-Lives number (jobs_of adapters number) site sound) in
      let (sound'', rest) =
        scrape_claimed-Lives adapters numbers (count_scrape number out.0 report)
          (close_site site out) sound' in
      (sound'', Evolves-trans site.session (close_site site out).session _ life rest)

  pub scrape_batch-Lives :
      (limit : ℕ) (requested : List String) (adapters : List SourceAdapter) (site : Site S)
      → IsSound site.session
      → SiteLives site (scrape_batch o max_retries worker_id limit requested adapters site).1
  unfolding scrape_batch
  scrape_batch-Lives limit requested adapters site sound =
      let claim = claim_enterprises_for_scrape limit worker_id 300 requested site.session in
      let (sound', life) =
        claim_enterprises_for_scrape-Lives limit worker_id 300 requested site.session sound in
      elim (Result-cases claim.0) [
        | inr (e, refused) ↦ rw refused (rollback-Lives site.session claim.1 sound)
        | inl (claimed, done) ↦
            let (sound'', rest) =
              scrape_claimed-Lives adapters claimed
                (record { claimed = length claimed; succeeded = 0; failed = 0; enterprises = [] })
                (record site { session = claim.1 }) sound' in
            rw done (sound'', Evolves-trans site.session claim.1 _ life rest)
      ]
