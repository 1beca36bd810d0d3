-- ===== src/Tests/Registry.antt =====
-- The theorems on the registry, at the sample database.
use airflow_kbo.Prelude.{◌+◌, ◌*◌, ◌≡◌, refl, true, none, some, [], ◌∷◌, arith, List, String}
use airflow_kbo.Text.{keep_chars}
use airflow_kbo.Storage.Paths.{normalize_enterprise_number}
use airflow_kbo.Action.{ok, err, state_transition_error}
use airflow_kbo.Persistence.Enums.{csv, new, queued_scrape, scraping, queued_parse, parsing, stored}
use airflow_kbo.Persistence.Session.{Session, StateRow, RawDocument, Discovery, is_known, IsSound}
use airflow_kbo.Persistence.Repositories.{
  transition_state, write_transition, normalize_all, claim_enterprises_for_parse,
  claim_enterprises_for_scrape, upsert_enterprise,
}
use airflow_kbo.Persistence.Repositories.Transition.{
  transition_state_refused, write_transition_stale,
}
use airflow_kbo.Persistence.Repositories.Claims.{IsClaim}
use airflow_kbo.Persistence.Records.{insert_raw_document_record, record_discovery}
use airflow_kbo.Persistence.Repositories.Transition.{row_after}
use airflow_kbo.Persistence.Repositories.Claims.Moves.{IsMoved, transition_state-Moves}
use airflow_kbo.Persistence.Repositories.Claims.Fair.{
  claim_enterprises_for_parse-Oldest, claim_enterprises_for_scrape-Oldest,
  claim_enterprises_for_scrape-Chosen,
}
use airflow_kbo.Persistence.Repositories.Oldest.{AreOldest, AreChosen}
use airflow_kbo.Persistence.Repositories.Upsert.{IsUpserted, upsert_enterprise-Registers}
use airflow_kbo.Persistence.Records.Once.{IsStoredOnce, record_discovery-Once}
use airflow_kbo.Persistence.Records.Soundness.{insert_raw_document_record_idem}
use airflow_kbo.Discovery.{EnqueueDecision, enqueue_if_new, apply_discovery_from_parse}
use airflow_kbo.Discovery.Enqueue.{Enqueued, enqueue_if_new_lem}
use airflow_kbo.Discovery.Fanout.{Discovers, apply_discovery_from_parse_lem}
use airflow_kbo.Tests.Samples.{
  ascii, one_waiting, one_waiting-IsSound, two_queued, two_queued-IsSound, two_scraped,
  two_scraped-IsSound, database, database-IsSound, waiting, running, waiting_number, running_number,
  dotted_number, dotted_waiting, row_of, running_row, running_known, waiting_not_scraping,
}

transition_state_example :
    IsMoved running
      (row_after
        (row_of running scraping 1_000_000)
        queued_parse
        (some "w1")
        none
        (database.clock database.ticks))
      database
      (transition_state "0878.065.378" scraping queued_parse (some "w1") none database)
transition_state_example =
    transition_state-Moves "0878.065.378" running (row_of running scraping 1_000_000) scraping
      queued_parse (some "w1") none database database-IsSound dotted_number running_row refl

transition_state_refused_example :
    transition_state waiting scraping queued_parse none none database
    ≡ (err state_transition_error, database)
transition_state_refused_example =
    transition_state_refused waiting waiting scraping queued_parse none none database waiting_number
      waiting_not_scraping

write_transition_stale_example :
    let stale : StateRow = record (row_of running scraping 1_000_000) { version = 7 } in
    let out = write_transition running stale scraping queued_parse none none database in
    (out.0 ≡ err state_transition_error) × (out.1.states ≡ database.states)
write_transition_stale_example =
    write_transition_stale running (record (row_of running scraping 1_000_000) { version = 7 })
      (row_of running scraping 1_000_000) scraping queued_parse none none database database-IsSound
      running_row (λ e. absurd (omega (arith, e)))

upsert_enterprise_example :
    IsUpserted running csv new one_waiting (upsert_enterprise "0878.065.378" csv new one_waiting)
upsert_enterprise_example =
    upsert_enterprise-Registers "0878.065.378" running csv new one_waiting one_waiting-IsSound
      dotted_number

claim_enterprises_for_parse_example :
    (numbers : List String) × AreOldest queued_parse two_scraped 1 numbers
    × IsClaim numbers parsing "w1"
        (two_scraped.clock two_scraped.ticks + 60 * 1_000_000)
        two_scraped
        (claim_enterprises_for_parse 1 "w1" 60 two_scraped)
claim_enterprises_for_parse_example =
    claim_enterprises_for_parse-Oldest 1 "w1" 60 two_scraped two_scraped-IsSound

claim_enterprises_for_scrape_example :
    (numbers : List String) × AreOldest queued_scrape two_queued 1 numbers
    × IsClaim numbers scraping "w1"
        (two_queued.clock two_queued.ticks + 60 * 1_000_000)
        two_queued
        (claim_enterprises_for_scrape 1 "w1" 60 [] two_queued)
claim_enterprises_for_scrape_example =
    claim_enterprises_for_scrape-Oldest 1 "w1" 60 two_queued two_queued-IsSound

abbrev document : RawDocument
document = record {
  enterprise_number = "0878.065.378";
  source = "kbo";
  doc_type = "profile";
  run_id = "r1";
  hdfs_dir = "/raw/kbo";
  document_path = "/raw/kbo/document.html";
  metadata_path = "/raw/kbo/metadata.json";
  sha256 = "00";
  size_bytes = 120;
  scraped_at = 5;
  http_status = 200;
  download_status = "SUCCESS";
  attempt_count = 1;
  status = stored;
}

insert_raw_document_record_idem_example :
    insert_raw_document_record document (insert_raw_document_record document database).1
    ≡ insert_raw_document_record document database
insert_raw_document_record_idem_example =
    insert_raw_document_record_idem document running database dotted_number running_known

record_discovery_example :
    (d : Discovery) × (s' : Session) × (record_discovery running "0403.170.701" "link" none database
      ≡ (ok d, s'))
    × IsSound s'
    × (is_known waiting s' ≡ true)
    × IsStoredOnce running waiting database.discoveries d s'.discoveries
record_discovery_example =
    record_discovery-Once running "0403.170.701" running waiting "link" none database
      database-IsSound running_number dotted_waiting

enqueue_if_new_example :
    (d : EnqueueDecision) × (s' : Session) × (enqueue_if_new waiting database ≡ (ok d, s'))
    × Enqueued waiting database d s'
enqueue_if_new_example = enqueue_if_new_lem waiting waiting database database-IsSound waiting_number

apply_discovery_from_parse_example :
    Discovers [] (apply_discovery_from_parse running (waiting ∷ "x" ∷ []) "MENTION" database)
apply_discovery_from_parse_example =
    apply_discovery_from_parse_lem running running "MENTION" (waiting ∷ "x" ∷ []) database
      database-IsSound running_number

requested_numbers : normalize_all (waiting ∷ "0878.065.378" ∷ []) ≡ ok (waiting ∷ running ∷ [])
unfolding normalize_all normalize_enterprise_number keep_chars
requested_numbers = refl

claim_enterprises_for_scrape_requested_example :
    (numbers : List String) × AreChosen queued_scrape two_queued (waiting ∷ running ∷ []) numbers
    × IsClaim numbers scraping "w1"
        (two_queued.clock two_queued.ticks + 60 * 1_000_000)
        two_queued
        (claim_enterprises_for_scrape 1 "w1" 60 (waiting ∷ "0878.065.378" ∷ []) two_queued)
claim_enterprises_for_scrape_requested_example =
    claim_enterprises_for_scrape-Chosen 1 "w1" 60 waiting ("0878.065.378" ∷ [])
      (waiting ∷ running ∷ []) two_queued two_queued-IsSound requested_numbers
