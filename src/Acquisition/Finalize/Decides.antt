-- ===== src/Acquisition/Finalize/Decides.antt =====
-- worker.py, `finalize_scrape_for_enterprises`: the decision for one enterprise, by its documents.
use airflow_kbo.Prelude.{
  ◌≤◌, String, ◌≡◌, true, none, some, List, ◌∷◌, ◌++◌, ◌==◌, any, length, All, ◌⊎◌,
}
use airflow_kbo.Text.{Unicode}
use airflow_kbo.Action.{Result, ok}
use airflow_kbo.Persistence.Enums.{queued_parse, failed_scrape}
use airflow_kbo.Persistence.Session.{Session, StateRow, RawDocument, find_state}
use airflow_kbo.Persistence.Repositories.Transition.{row_after}
use airflow_kbo.Acquisition.Finalize.{Finalized, to_parse, incomplete}

-- A document of the source is stored for the number, and its download succeeded.
abbrev pub IsDownloaded : String → Session → String → Type 0
IsDownloaded number s source =
    (before : List RawDocument) × (d : RawDocument) × (after : List RawDocument) × (s.documents
      ≡ before ++ d ∷ after)
    × (d.enterprise_number ≡ number)
    × (d.source ≡ source)
    × (d.download_status ≡ "SUCCESS")

-- The missing sources are those without such a document.
abbrev pub AreMissing : String → Session → List String → List String → Type 0
AreMissing number s sources missing =
    All (λ source. IsDownloaded number s source → ⊥) missing
    × All (λ source. IsDownloaded number s source ⊎ (any (λ m. m == source) missing ≡ true)) sources

module _ ⦃u : Unicode⦄ where
  -- What the turn of the loop for one enterprise does.
  abbrev pub IsDecided :
      List String
      → String
      → String
      → String
      → StateRow
      → Session
      → Result Finalized × Session
      → Type 0
  IsDecided sources worker_id raw number row s out =
      (All (IsDownloaded raw s) sources
        × (out.0 ≡ ok (to_parse raw))
        × (find_state number out.1
            ≡ some (row_after row queued_parse (some worker_id) none (s.clock s.ticks))))
      ⊎ ((missing : List String) × (1 ≤ length missing)
          × AreMissing raw s sources missing
          × (out.0 ≡ ok (incomplete raw missing))
          × (find_state number out.1
              ≡ some (row_after row failed_scrape (some worker_id) none (s.clock s.ticks))))
