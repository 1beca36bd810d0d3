-- ===== src/Persistence/Bridge.antt =====
-- packages/persistence/bridge.py and packages/storage/registry.py: a stored bundle is announced to
-- the listeners, and the bridge registers it in a session of its own.
pub mod Registered
use airflow_kbo.Prelude.{
  ℕ, zero, suc, String, ◌≡◌, refl, sym, ◌∙◌, ap, Bool, true, false, ◌&&◌, Option, none, some, List,
  [], ◌∷◌, ◌++◌, if◌then◌else◌, find, Bool-cases, Option-cases, inl, inr, find-append_self, arith,
  eq_iff,
}
use airflow_kbo.Text.{Unicode}
use airflow_kbo.Action.{
  Action, Result, ok, err, pure, raise, lift, ◌>>=◌, ◌>>◌, value_error, enterprise_not_found,
}
use airflow_kbo.Payload.{Value, Dict, get}
use airflow_kbo.Storage.Paths.{normalize_enterprise_number}
use airflow_kbo.Storage.Models.{StoreResult, RawDocumentStoredEvent}
use airflow_kbo.Storage.Validation.{HttpStatus, code_of}
use airflow_kbo.Storage.RawStore.{HdfsClient, Python, StorageConfig, write_bundle}
use airflow_kbo.Storage.Layout.{or_fresh}
use airflow_kbo.Persistence.Enums.{RawDocumentStatus, stored}
use airflow_kbo.Persistence.Session.{Session, RawDocument, IsSound, is_known}
use airflow_kbo.Persistence.Records.{insert_raw_document_from_event, same_document}
use airflow_kbo.Persistence.Records.Soundness.{insert_raw_document_record_lem}

-- The registry: `_listeners`, and the flag of the bridge. The bridge is the only listener of the
-- program, so the list is kept as its length.
pub record Registry : Type 0 where
  pub listeners : ℕ
  pub wired : Bool

-- wire_storage_events()
unfoldable pub wire_storage_events : Registry → Registry
wire_storage_events r =
    if r.wired then r else record r { listeners = suc r.listeners; wired = true }

-- The files and the database.
pub record Archive (F : Type 0) : Type 0 where
  pub files : F
  pub session : Session

abbrev pub int_of : HttpStatus → Result ℕ
int_of (code_of n) = ok n
int_of v = err value_error

module _ {F : Type 0} where
  abbrev pub on_files : {A : Type 0} → Action F A → Action (Archive F) A
  on_files m a = let (r, f) = m a.files in (r, record a { files = f })

-- Rollback after an exception, which is raised again.
abbrev pub commit_or_rollback :
    {A : Type 0} → Session → Result A × Session → Result (Unit {0}) × Session
commit_or_rollback before (ok a, after) = (ok tt, after)
commit_or_rollback before (err e, after) = (err e, record before { ticks = after.ticks })

module _ ⦃u : Unicode⦄ where
  -- `_on_raw_stored`: an attempt count of 1 and the status STORED are the defaults.
  unfoldable pub on_raw_stored : RawDocumentStoredEvent → Action Session Unit
  on_raw_stored event s = commit_or_rollback s (insert_raw_document_from_event event 1 stored s)

  -- for listener in _listeners: listener(event)
  unfoldable pub on_raw_document_stored : ℕ → RawDocumentStoredEvent → Action Session Unit
  unfolding on_raw_stored
  on_raw_document_stored zero event s = (ok tt, s)
  on_raw_document_stored (suc n) event s = (on_raw_stored event >> on_raw_document_stored n event) s

module _ ⦃u : Unicode⦄ {F : Type 0} (client : HdfsClient F) (py : Python) (cfg : StorageConfig)
    (from_iso : Value → Result ℕ) where
  -- `_emit_stored_event` up to the call of the listeners; `from_iso` reads `scraped_at`.
  unfoldable pub event_of :
      String → String → String → String → StoreResult → Dict → Result RawDocumentStoredEvent
  event_of enterprise_number source doc_type run_id result metadata =
      elim (from_iso (get "scraped_at" metadata)) [
        | err e ↦ err e
        | ok scraped_at ↦ elim (int_of (py.to_int (get "http_status" metadata))) [
          | err e ↦ err e
          | ok http_status ↦ ok (record {
            enterprise_number = enterprise_number;
            source = source;
            doc_type = doc_type;
            run_id = run_id;
            hdfs_dir = result.hdfs_dir;
            document_path = result.document_path;
            metadata_path = result.metadata_path;
            sha256 = result.sha256;
            size_bytes = result.size_bytes;
            scraped_at = scraped_at;
            http_status = http_status;
            download_status = py.show (get "download_status" metadata);
          })
        ]
      ]

  abbrev pub announce : ℕ → Result RawDocumentStoredEvent → Action (Archive F) Unit
  announce listeners (err e) a = (err e, a)
  announce listeners (ok event) a =
      let (r, s) = on_raw_document_stored listeners event a.session in (r, record a { session = s })

  -- `store_raw_bundle`, with its event.
  unfoldable pub store_raw_bundle :
      Registry
      → Bool
      → String
      → String
      → String
      → List ℕ
      → Dict
      → Option String
      → Option String
      → String
      → Action (Archive F) StoreResult
  unfolding event_of
  store_raw_bundle registry emit source enterprise_number doc_type content metadata run_id
        document_name fresh =
      do
        r ← on_files (
            write_bundle client py cfg source enterprise_number doc_type content metadata run_id
              document_name fresh)
        if emit
            then announce registry.listeners
                (event_of enterprise_number source doc_type (or_fresh run_id fresh) r.0 r.1)
              >> pure r.0
            else pure r.0
