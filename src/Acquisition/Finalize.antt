-- ===== src/Acquisition/Finalize.antt =====
-- packages/acquisition/worker.py, `finalize_scrape_for_enterprises`: an enterprise whose sources
-- are all stored goes to the parse queue, any other one fails.
pub mod Laws
pub mod Life
pub mod Decides
pub mod Tally
use airflow_kbo.Prelude.{
  ℕ, suc, String, ◌≡◌, Bool, true, false, ◌&&◌, Option, none, some, List, [], ◌∷◌, ◌++◌, ◌==◌, any,
  length, if◌then◌else◌,
}
use airflow_kbo.Text.{Unicode}
use airflow_kbo.Action.{
  Action, Result, ok, err, pure, raise, ◌>>=◌, Exception, state_transition_error,
}
use airflow_kbo.Persistence.Enums.{ProcessingState, scraping, queued_parse, failed_scrape}
use airflow_kbo.Persistence.Session.{Session, StateRow, RawDocument}
use airflow_kbo.Persistence.Repositories.{transition_state}

-- SELECT count(*) … is not 0.
unfoldable pub has_success : String → String → Session → Bool
has_success number source s =
    any
      (λ (d : RawDocument).
        d.enterprise_number == number && (d.source == source && d.download_status == "SUCCESS"))
      s.documents

unfoldable pub missing_sources : String → List String → Session → List String
missing_sources number [] s = []
missing_sources number (source ∷ sources) s =
    let rest = missing_sources number sources s in
    if has_success number source s then rest else source ∷ rest

-- An entry of `details`.
pub data Finalized : Type 0 where
  to_parse : String → Finalized
  incomplete : String → List String → Finalized
  refused : String → Finalized

-- The state that an enterprise is sent to.
abbrev pub target_of : List String → ProcessingState
target_of [] = queued_parse
target_of (source ∷ sources) = failed_scrape

abbrev pub entry_of : String → List String → Finalized
entry_of number [] = to_parse number
entry_of number (source ∷ sources) = incomplete number (source ∷ sources)

-- `except StateTransitionError`; no other exception is caught.
abbrev pub caught : String → List String → Result StateRow → Result Finalized
caught number missing (ok row) = ok (entry_of number missing)
caught number missing (err state_transition_error) = ok (refused number)
caught number missing (err e) = err e

pub record FinalizeReport : Type 0 where
  pub finalized : ℕ
  pub succeeded : ℕ
  pub failed : ℕ
  pub enterprises : List Finalized

-- One more entry in the counts.
abbrev pub count_entry : Finalized → FinalizeReport → FinalizeReport
count_entry (to_parse number) r = record r {
  succeeded = suc r.succeeded;
  enterprises = r.enterprises ++ to_parse number ∷ [];
}
count_entry (incomplete number missing) r = record r {
  failed = suc r.failed;
  enterprises = r.enterprises ++ incomplete number missing ∷ [];
}
count_entry (refused number) r = record r {
  failed = suc r.failed;
  enterprises = r.enterprises ++ refused number ∷ [];
}

module _ ⦃u : Unicode⦄ where
  -- The turn of the loop for one number.
  unfoldable pub finalize_one : List String → String → String → Action Session Finalized
  finalize_one sources worker_id number s =
      let missing = missing_sources number sources s in
      let (r, s') = transition_state number scraping (target_of missing) (some worker_id) none s in
      (caught number missing r, s')

  unfoldable pub finalize_all :
      List String → String → List String → FinalizeReport → Action Session FinalizeReport
  finalize_all sources worker_id [] report = pure report
  finalize_all sources worker_id (number ∷ numbers) report = do
    entry ← finalize_one sources worker_id number
    finalize_all sources worker_id numbers (count_entry entry report)

  -- `sources` are those of the adapters.
  unfoldable pub finalize_scrape_for_enterprises :
      List String → String → List String → Action Session FinalizeReport
  unfolding finalize_all
  finalize_scrape_for_enterprises sources worker_id numbers =
      finalize_all sources worker_id numbers
        (record { finalized = length numbers; succeeded = 0; failed = 0; enterprises = [] })
