-- ===== src/Storage/Models.antt =====
-- packages/storage/models.py.
use airflow_kbo.Prelude.{ℕ, String}

pub record PutResult : Type 0 where
  pub hdfs_path : String
  pub sha256 : String
  pub size_bytes : ℕ

pub record StoreResult : Type 0 where
  pub hdfs_dir : String
  pub document_path : String
  pub metadata_path : String
  pub sha256 : String
  pub size_bytes : ℕ

pub record RawDocumentStoredEvent : Type 0 where
  pub enterprise_number : String
  pub source : String
  pub doc_type : String
  pub run_id : String
  pub hdfs_dir : String
  pub document_path : String
  pub metadata_path : String
  pub sha256 : String
  pub size_bytes : ℕ
  pub scraped_at : ℕ
  pub http_status : ℕ
  pub download_status : String
