-- ===== src/Tests/Batches.antt =====
-- The theorems on batches, on an ingestion and on the whole program, at the sample database.
use airflow_kbo.Prelude.{
  ℕ, ◌+◌, String, ◌≡◌, refl, true, false, some, List, [], ◌∷◌, map, take, length, arith,
}
use airflow_kbo.Action.{Result, ok}
use airflow_kbo.Payload.{text, null, Dict}
use airflow_kbo.Storage.Paths.{normalize-IsNumber}
use airflow_kbo.Persistence.Enums.{csv, queued_scrape, scraping, queued_parse, parsing}
use airflow_kbo.Persistence.Table.{find_key, has_key}
use airflow_kbo.Persistence.Session.{Session, state_key, find_state, IsSound}
use airflow_kbo.Persistence.Repositories.{queue}
use airflow_kbo.Persistence.Repositories.Upsert.{after_upsert, upsert_enterprise_lem}
use airflow_kbo.Persistence.Life.{state_of}
use airflow_kbo.Acquisition.Batch.{Site, scrape_enterprise, scrape_batch}
use airflow_kbo.Acquisition.Batch.Settled.{Scrapes, scrape_enterprise_lem}
use airflow_kbo.Acquisition.Batch.Claimed.{IsScrapedBatch, scrape_batch_lem}
use airflow_kbo.Extraction.Parse.{ExtractionConfig, Parsers}
use airflow_kbo.Extraction.Worker.{parse_enterprise, parse_batch}
use airflow_kbo.Extraction.Worker.Settled.{Settles, parse_enterprise_lem}
use airflow_kbo.Extraction.Worker.Batch.{IsParsedBatch, parse_batch_lem}
use airflow_kbo.Ingestion.{Counts, IngestReport, ingest_csv}
use airflow_kbo.Ingestion.Alike.{Alike}
use airflow_kbo.Ingestion.Quarantine.{rejections, ingest_csv-Quarantines}
use airflow_kbo.Tests.Sites.{site, adapter, started}
use airflow_kbo.Tests.Samples.{
  ascii, database, database-IsSound, one_waiting, one_waiting-IsSound, waiting, running,
  running_number, row_of, running_row,
}

-- Every page parses to a name and a link.
abbrev parsers : Parsers
parsers = record {
  kbo = λ content number version schema. ok (("legal_name", text "ACME") ∷ [], waiting ∷ [], false);
  moniteur = λ content number kind. ok (("result_link_count", null) ∷ [], [], true);
  generic = λ content number source kind. ok ([], [], true);
  show = λ v. elim v [ text s ↦ s | other ↦ "None" ];
}

abbrev bundles : String → Result (List ℕ × Dict)
bundles dir = ok (60 ∷ [], [])

abbrev settings : ExtractionConfig
settings = record { worker_id = "w1"; extractor_version = "1.0.0"; schema_version = 1 }

-- One enterprise waits for its parse, one is parsed.
abbrev to_parse : Session
to_parse = after_upsert running csv queued_parse one_waiting

abbrev in_parse : Session
in_parse = after_upsert running csv parsing one_waiting

to_parse-IsSound : IsSound to_parse
to_parse-IsSound =
    (upsert_enterprise_lem running running csv queued_parse one_waiting one_waiting-IsSound
      running_number).4

in_parse-IsSound : IsSound in_parse
in_parse-IsSound =
    (upsert_enterprise_lem running running csv parsing one_waiting one_waiting-IsSound
      running_number).4

running_parsing : state_of (find_state running in_parse) ≡ some parsing
unfolding find_key has_key
running_parsing = refl

parse_enterprise_example :
    Settles running in_parse (parse_enterprise bundles parsers (λ d. d) settings running in_parse)
parse_enterprise_example =
    parse_enterprise_lem bundles parsers (λ d. d) settings running in_parse in_parse-IsSound
      (normalize-IsNumber running running_number) running_parsing

parse_batch_example :
    IsParsedBatch bundles parsers
      (λ d. d)
      settings
      (map state_key (take 10 (queue queued_parse to_parse)))
      (parse_batch bundles parsers (λ d. d) settings 10 to_parse)
parse_batch_example = parse_batch_lem bundles parsers (λ d. d) settings 10 to_parse to_parse-IsSound

abbrev workplace : Site (Unit {0})
workplace = record { run = started; session = database }

scrape_enterprise_example :
    let out = scrape_enterprise site 3 "w1" running (adapter ∷ []) workplace in
    Scrapes running database out.0 out.1.session
scrape_enterprise_example =
    scrape_enterprise_lem site 3 "w1" running (adapter ∷ []) (row_of running scraping 1_000_000)
      workplace database-IsSound (normalize-IsNumber running running_number) running_row refl

scrape_batch_example :
    IsScrapedBatch site 3 "w1"
      (map state_key (take 10 (queue queued_scrape database)))
      (scrape_batch site 3 "w1" 10 [] (adapter ∷ []) workplace)
scrape_batch_example = scrape_batch_lem site 3 "w1" 10 (adapter ∷ []) workplace database-IsSound

abbrev no_counts : Counts
no_counts = (0, 0)

abbrev file_lines : List (ℕ × String)
file_lines = (2, "0403.170.701") ∷ (3, "") ∷ (4, "BE 12") ∷ (5, "0878.065.378") ∷ []

ingest_csv_example :
    (r : IngestReport) × (s' : Session) × (ingest_csv true 2 file_lines one_waiting ≡ (ok r, s'))
    × (r.quarantine ≡ rejections file_lines)
    × (r.rejected ≡ length (rejections file_lines))
    × (r.rows_read ≡ length file_lines)
    × (r.rows_read ≡ r.created + r.already_existed + r.rejected)
    × (length s'.enterprises ≡ length one_waiting.enterprises + r.created)
    × IsSound s'
ingest_csv_example =
    ingest_csv-Quarantines true 2 file_lines one_waiting one_waiting-IsSound (omega arith)
