-- ===== src/Persistence/Records.antt =====
-- packages/persistence/repositories.py: the tables of documents, snapshots and discoveries.
pub mod Soundness
pub mod Once
use airflow_kbo.Prelude.{
  ℕ, zero, suc, String, ◌≡◌, Bool, true, false, ◌&&◌, ◌||◌, Option, none, some, List, [], ◌∷◌, ◌++◌,
  map, ◌==◌, if◌then◌else◌, keep, find, any, take, drop, length,
}
use airflow_kbo.Text.{Unicode}
use airflow_kbo.Action.{Action, Result, ok, err, pure, lift, ◌>>=◌, ◌>>◌, integrity_error}
use airflow_kbo.Payload.{Payload}
use airflow_kbo.Storage.Paths.{normalize_enterprise_number}
use airflow_kbo.Storage.Models.{RawDocumentStoredEvent}
use airflow_kbo.Persistence.Enums.{discovered, new, RawDocumentStatus}
use airflow_kbo.Persistence.Session.{Session, RawDocument, Snapshot, Discovery, is_known, utc_now}
use airflow_kbo.Persistence.Repositories.{upsert_enterprise, require_enterprise, normalize_all}

-- The key of the unique constraint on `raw_documents`.
abbrev pub same_document : String → String → String → String → RawDocument → Bool
same_document number source doc_type run_id d =
    d.enterprise_number == number
    && (d.source == source && (d.doc_type == doc_type && d.run_id == run_id))

abbrev pub same_pair : String → String → Discovery → Bool
same_pair source discovered_number d =
    d.source_enterprise_number == source && d.discovered_enterprise_number == discovered_number

-- Inserts at a flush, with the foreign key on `enterprises`.
unfoldable pub insert_document : RawDocument → Action Session Unit
insert_document d s =
    if is_known d.enterprise_number s
    then (ok tt, record s { documents = s.documents ++ d ∷ [] })
    else (err integrity_error, s)

unfoldable pub insert_snapshot : Snapshot → Action Session Unit
insert_snapshot d s =
    if is_known d.enterprise_number s
    then (ok tt, record s { snapshots = s.snapshots ++ d ∷ [] })
    else (err integrity_error, s)

unfoldable pub insert_discovery : Discovery → Action Session Unit
insert_discovery d s =
    if is_known d.discovered_enterprise_number s
    then (ok tt, record s { discoveries = s.discoveries ++ d ∷ [] })
    else (err integrity_error, s)

-- The pair is looked up, and added if it is not there.
unfoldable pub store_discovery : String → String → String → Option String → Action Session Discovery
store_discovery source number reason reason_code s =
    elim (find (same_pair source number) s.discoveries) [
      | some existing ↦ (ok existing, s)
      | none ↦
          let row : Discovery = record {
            source_enterprise_number = source;
            discovered_enterprise_number = number;
            reason = reason;
            reason_code = reason_code;
            discovered_at = s.clock s.ticks;
          } in
          (utc_now >> insert_discovery row >> pure row) s
    ]

module _ ⦃u : Unicode⦄ where
  -- `fields` are the keyword arguments of the source.
  unfoldable pub insert_raw_document_record : RawDocument → Action Session RawDocument
  insert_raw_document_record fields = do
    number ← lift (normalize_enterprise_number fields.enterprise_number)
    require_enterprise number
    λ s.
        elim (find (same_document number fields.source fields.doc_type fields.run_id) s.documents) [
          | some existing ↦ (ok existing, s)
          | none ↦
              let row : RawDocument = record fields { enterprise_number = number } in
              (insert_document row >> pure row) s
        ]

  unfoldable pub insert_raw_document_from_event :
      RawDocumentStoredEvent → ℕ → RawDocumentStatus → Action Session RawDocument
  insert_raw_document_from_event event attempt_count status = insert_raw_document_record (record {
    enterprise_number = event.enterprise_number;
    source = event.source;
    doc_type = event.doc_type;
    run_id = event.run_id;
    hdfs_dir = event.hdfs_dir;
    document_path = event.document_path;
    metadata_path = event.metadata_path;
    sha256 = event.sha256;
    size_bytes = event.size_bytes;
    scraped_at = event.scraped_at;
    http_status = event.http_status;
    download_status = event.download_status;
    attempt_count = attempt_count;
    status = status;
  })

  unfoldable pub append_snapshot : String → Payload → ℕ → Action Session Snapshot
  append_snapshot raw payload schema_version = do
    number ← lift (normalize_enterprise_number raw)
    require_enterprise number
    now ← utc_now
    let row : Snapshot = record {
      enterprise_number = number;
      snapshot_at = now;
      schema_version = schema_version;
      payload = payload;
    }
    insert_snapshot row
    pure row

  unfoldable pub record_discovery :
      String → String → String → Option String → Action Session Discovery
  record_discovery raw_source raw_discovered reason reason_code = do
    source ← lift (normalize_enterprise_number raw_source)
    number ← lift (normalize_enterprise_number raw_discovered)
    upsert_enterprise number discovered new
    store_discovery source number reason reason_code

-- A stored document of `source` that was downloaded, for one of the numbers.
abbrev pub is_success_of : List String → String → RawDocument → Bool
is_success_of chunk source d =
    any (λ k. k == d.enterprise_number) chunk
    && (d.source == source && d.download_status == "SUCCESS")

abbrev pub document_pair : RawDocument → String × String
document_pair d = (d.enterprise_number, d.doc_type)

-- The queries over slices of `chunk_size` numbers. Each slice takes at least one number off the
-- list, so the number of numbers is enough fuel.
unfoldable pub collect_chunks :
    ℕ → ℕ → List String → String → List RawDocument → List (String × String)
collect_chunks zero chunk_size numbers source documents = []
collect_chunks (suc fuel) chunk_size [] source documents = []
collect_chunks (suc fuel) chunk_size (x ∷ xs) source documents =
    map document_pair (keep (is_success_of (take chunk_size (x ∷ xs)) source) documents)
    ++ collect_chunks fuel chunk_size (drop chunk_size (x ∷ xs)) source documents

-- The set of pairs, as the list of its members.
unfoldable pub fetch_success_raw_keys_for_source :
    ⦃u : Unicode⦄ → List String → String → ℕ → Session → Result (List (String × String))
unfolding collect_chunks normalize_all
fetch_success_raw_keys_for_source enterprise_numbers source chunk_size s =
    elim (normalize_all enterprise_numbers) [
      | err e ↦ err e
      | ok numbers ↦ ok (collect_chunks (length numbers) chunk_size numbers source s.documents)
    ]
