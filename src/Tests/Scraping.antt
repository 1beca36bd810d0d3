-- ===== src/Tests/Scraping.antt =====
-- The theorems on acquisition, at sample responses and sample sources.
use airflow_kbo.Prelude.{ℕ, ◌+◌, ◌≡◌, refl, false, none, some, List, [], ◌∷◌, length}
use airflow_kbo.Text.{contains, has_prefix}
use airflow_kbo.Text.Regex.{search, matches_here, derive, nullable}
use airflow_kbo.Action.{ok}
use airflow_kbo.Persistence.Session.{IsSound}
use airflow_kbo.Acquisition.Models.{store, captcha_suspect}
use airflow_kbo.Acquisition.Policy.{
  pos, effective_parallel_requests_per_site, effective_parallel_bounds,
}
use airflow_kbo.Acquisition.Validate.{
  validate_fetch, validate_response, validate_status, validate_content, validate_body,
  validate_text, is_html, looks_like_html, starts_with_lower, lstrip_bytes, first_match,
  captcha_markers, error_markers,
}
use airflow_kbo.Acquisition.Validate.Laws.{IsAcceptable, validate_fetch_lem}
use airflow_kbo.Acquisition.Worker.{scrape_one_enterprise_for_source}
use airflow_kbo.Acquisition.Worker.Effects.{HasGoodStores, scrape_one-HasGoodStores}
use airflow_kbo.Acquisition.Worker.Passes.{StatutesReport, statutes_report}
use airflow_kbo.Acquisition.Finalize.{finalize_scrape_for_enterprises, FinalizeReport}
use airflow_kbo.Acquisition.Finalize.Tally.{
  entry_number, IsTallied, finalize_scrape_for_enterprises-Reports,
}
use airflow_kbo.Acquisition.Policy.{IsGranted}
use airflow_kbo.Prelude.{map, ◌+◌}
use airflow_kbo.Tests.Sites.{page, site, adapter, started}
use airflow_kbo.Tests.Samples.{ascii, database, database-IsSound, waiting, running}

page_stored : (validate_fetch page).action ≡ store
unfolding validate_fetch validate_response validate_status validate_content validate_body
    validate_text is_html looks_like_html starts_with_lower lstrip_bytes first_match captcha_markers
    error_markers contains has_prefix search matches_here derive nullable
page_stored = refl

validate_fetch_example : (status : ℕ) × (body : List ℕ) × IsAcceptable page status body
validate_fetch_example = validate_fetch_lem page page_stored

effective_parallel_bounds_example :
    let granted = effective_parallel_requests_per_site "kbo" (pos 50) in
    IsGranted "kbo" (pos 50) granted
    × (effective_parallel_requests_per_site "kbo" (pos granted) ≡ granted)
effective_parallel_bounds_example = effective_parallel_bounds "kbo" (pos 50)

no_events : HasGoodStores started
unfolding HasGoodStores
no_events = tt

scrape_one-HasGoodStores_example :
    HasGoodStores
      (scrape_one_enterprise_for_source site 3 waiting adapter "kbo" none none
        (some false)
        started).1
scrape_one-HasGoodStores_example =
    scrape_one-HasGoodStores site 3 waiting adapter "kbo" none none (some false) started no_events

-- The first block stops the run.
abbrev statutes_stopped : StatutesReport
statutes_stopped = statutes_report (waiting ∷ running ∷ []) (
  record { enterprise_number = waiting; source = "statutes"; ok = false; reason = captcha_suspect }
      ∷ [],
  some captcha_suspect,
)

finalize_scrape_for_enterprises_example :
    let (r, s') =
      finalize_scrape_for_enterprises ("kbo" ∷ []) "w1" (running ∷ waiting ∷ []) database in
    IsSound s'
    × ((report : FinalizeReport)
        → r ≡ ok report
        → (map entry_number report.enterprises ≡ running ∷ waiting ∷ [])
          × (report.finalized ≡ length (running ∷ waiting ∷ []))
          × IsTallied report)
finalize_scrape_for_enterprises_example =
    finalize_scrape_for_enterprises-Reports ("kbo" ∷ []) "w1" (running ∷ waiting ∷ []) database
      database-IsSound
