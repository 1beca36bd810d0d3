-- ===== src/Acquisition/Finalize/Life.antt =====
-- worker.py: a finalisation follows the graph of the processing states.
use airflow_kbo.Prelude.{String, List, [], ◌∷◌, some, none}
use airflow_kbo.Text.{Unicode}
use airflow_kbo.Action.{ok}
use airflow_kbo.Persistence.Enums.{scraping}
use airflow_kbo.Persistence.Life.{◌⟶◌, scraped, not_scraped}
use airflow_kbo.Persistence.Life.Steps.{Lives, Lives-bind, pure-Lives, transition_state-Lives}
use airflow_kbo.Acquisition.Finalize.{
  missing_sources, Finalized, target_of, FinalizeReport, count_entry, finalize_one, finalize_all,
  finalize_scrape_for_enterprises,
}

finalize_edge : (missing : List String) → some scraping ⟶ some (target_of missing)
finalize_edge [] = scraped
finalize_edge (source ∷ sources) = not_scraped

module _ ⦃u : Unicode⦄ where
  finalize_one-Lives :
      (sources : List String) (worker_id number : String)
      → Lives (finalize_one sources worker_id number)
  unfolding finalize_one
  finalize_one-Lives sources worker_id number s sound =
      let missing = missing_sources number sources s in
      transition_state-Lives number scraping (target_of missing) (some worker_id) none
        (finalize_edge missing) s sound

  finalize_all-Lives :
      (sources : List String) (worker_id : String) (numbers : List String) (report : FinalizeReport)
      → Lives (finalize_all sources worker_id numbers report)
  unfolding finalize_all
  finalize_all-Lives sources worker_id [] report = pure-Lives (ok report)
  finalize_all-Lives sources worker_id (number ∷ numbers) report =
      Lives-bind {A = Finalized} {B = FinalizeReport} (finalize_one sources worker_id number)
        (λ entry. finalize_all sources worker_id numbers (count_entry entry report))
        (finalize_one-Lives sources worker_id number)
        (λ entry. finalize_all-Lives sources worker_id numbers (count_entry entry report))

  pub finalize_scrape_for_enterprises-Lives :
      (sources : List String) (worker_id : String) (numbers : List String)
      → Lives (finalize_scrape_for_enterprises sources worker_id numbers)
  unfolding finalize_scrape_for_enterprises
  finalize_scrape_for_enterprises-Lives sources worker_id numbers =
      finalize_all-Lives sources worker_id numbers _
