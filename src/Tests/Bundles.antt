-- ===== src/Tests/Bundles.antt =====
-- The theorems on the raw store, at files in memory.
use airflow_kbo.Prelude.{
  ℕ, String, ◌≡◌, refl, false, none, some, List, [], ◌∷◌, ◌==◌, if◌then◌else◌, map, any,
}
use airflow_kbo.Text.{contains, has_prefix, ◌<>◌}
use airflow_kbo.Action.{Result, ok, err, file_not_found}
use airflow_kbo.Payload.{Value, text, number, Dict}
use airflow_kbo.Storage.Layout.{document_basename}
use airflow_kbo.Storage.Models.{StoreResult, RawDocumentStoredEvent}
use airflow_kbo.Storage.Validation.{code_of}
use airflow_kbo.Storage.RawStore.{HdfsClient, Python, StorageConfig}
use airflow_kbo.Persistence.Bridge.{Archive}
use airflow_kbo.Tests.Samples.{ascii, database, waiting}

abbrev Files : Type 0
Files = List (String × List ℕ)

abbrev read : String → Files → Result (List ℕ)
read path [] = err file_not_found
read path ((p, content) ∷ files) = if p == path then ok content else read path files

abbrev memory : HdfsClient Files
memory = record {
  put_bytes = λ path content files. (ok tt, (path, content) ∷ files);
  get_bytes = read;
  exists = λ path files. any (λ (x : String × List ℕ). x.0 == path) files;
  ensure_dir = λ path files. (ok tt, files);
}

abbrev IsUp : Files → Type 0
IsUp files = Unit

abbrev Apart : String → String → Type 0
Apart p q = (p == q) ≡ false

abbrev metadata : Dict
metadata =
    ("scraped_at", text "2026-01-01")
    ∷ ("source", text "statutes")
    ∷ ("download_status", text "SUCCESS")
    ∷ ("http_status", number 200)
    ∷ ("proxy_or_ip", text "direct")
    ∷ ("attempt_count", number 1)
    ∷ ("last_updated_at", text "2026-01-01")
    ∷ ("content_type", text "application/pdf")
    ∷ []

abbrev with_keys : Dict
with_keys =
    ("scraped_at", text "2026-01-01")
    ∷ ("source", text "statutes")
    ∷ ("download_status", text "SUCCESS")
    ∷ ("http_status", number 200)
    ∷ ("proxy_or_ip", text "direct")
    ∷ ("attempt_count", number 1)
    ∷ ("last_updated_at", text "2026-01-01")
    ∷ ("content_type", text "application/pdf")
    ∷ ("sha256", text "abc")
    ∷ ("document_name", text "document.bin")
    ∷ ("schema_version", number 1)
    ∷ []

-- One metadata file is all that is written here.
abbrev python : Python
python = record {
  dumps = λ d. 123 ∷ 125 ∷ [];
  loads = λ raw. ok with_keys;
  sha256 = λ content. "abc";
  show = λ v. elim v [ text s ↦ s | other ↦ "None" ];
  to_int = λ v. code_of 200;
}

abbrev IsJson : Dict → Type 0
IsJson d = d ≡ with_keys

abbrev settings : StorageConfig
settings = record {
  hdfs_raw_root = "hdfs://localhost:9000/raw/v1";
  sidecar_schema_version = 1;
  metadata_filename = "metadata.json";
  default_document_name = "document.html";
}

abbrev pdf : List ℕ
pdf = 37 ∷ 80 ∷ 68 ∷ 70 ∷ []

abbrev pdf_dir : String
pdf_dir =
    "hdfs://localhost:9000/raw/v1/source=statutes/enterprise_number=0403170701/doc_type=publications/run_id=r1"

named : document_basename (some "application/pdf") none ≡ "document.bin"
unfolding document_basename contains has_prefix
named = refl

abbrev keys : List String
keys = map (λ (f : String × Value). f.0) with_keys

abbrev pdf_stored : StoreResult
pdf_stored = record {
  hdfs_dir = pdf_dir;
  document_path = pdf_dir <> "/document.bin";
  metadata_path = pdf_dir <> "/metadata.json";
  sha256 = "abc";
  size_bytes = 4;
}

abbrev files_after : Files
files_after = (pdf_dir <> "/metadata.json", 123 ∷ 125 ∷ []) ∷ (pdf_dir <> "/document.bin", pdf) ∷ []

abbrev pdf_event : RawDocumentStoredEvent
pdf_event = record {
  enterprise_number = waiting;
  source = "statutes";
  doc_type = "publications";
  run_id = "r1";
  hdfs_dir = pdf_dir;
  document_path = pdf_dir <> "/document.bin";
  metadata_path = pdf_dir <> "/metadata.json";
  sha256 = "abc";
  size_bytes = 4;
  scraped_at = 7;
  http_status = 200;
  download_status = "SUCCESS";
}

abbrev archive : Archive Files
archive = record { files = []; session = database }
