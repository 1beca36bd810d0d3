-- ===== src/Persistence/Bridge/Registered.antt =====
-- packages/persistence/bridge.py: a stored bundle stands in the table of documents.
use airflow_kbo.Prelude.{String, ◌≡◌, false, some, find}
use airflow_kbo.Text.{Unicode}
use airflow_kbo.Storage.Models.{RawDocumentStoredEvent}
use airflow_kbo.Persistence.Enums.{stored}
use airflow_kbo.Persistence.Session.{Session, RawDocument}
use airflow_kbo.Persistence.Records.{same_document}
use airflow_kbo.Persistence.Bridge.{Registry}

-- The row that an event is registered as, under the number that it gives.
abbrev row_of_event : RawDocumentStoredEvent → RawDocument
row_of_event event = record {
  enterprise_number = event.enterprise_number;
  source = event.source;
  doc_type = event.doc_type;
  run_id = event.run_id;
  hdfs_dir = event.hdfs_dir;
  document_path = event.document_path;
  metadata_path = event.metadata_path;
  sha256 = event.sha256;
  size_bytes = event.size_bytes;
  scraped_at = event.scraped_at;
  http_status = event.http_status;
  download_status = event.download_status;
  attempt_count = 1;
  status = stored;
}

abbrev pub unwired : Registry
unwired = record { listeners = 0; wired = false }

module _ ⦃u : Unicode⦄ where
  -- The row of an event, found by its key.
  abbrev pub IsListed : RawDocumentStoredEvent → String → Session → Type 0
  IsListed event number s =
      (d : RawDocument) × (find (same_document number event.source event.doc_type event.run_id)
          s.documents
        ≡ some d)
