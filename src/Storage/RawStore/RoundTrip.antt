-- ===== src/Storage/RawStore/RoundTrip.antt =====
-- packages/storage/raw_store.py: what is stored is read back.
use airflow_kbo.Prelude.{ℕ, String, ◌≡◌, true, List, length}
use airflow_kbo.Text.{Unicode}
use airflow_kbo.Action.{ok}
use airflow_kbo.Payload.{Dict, get}
use airflow_kbo.Storage.Paths.{join_hdfs_path}
use airflow_kbo.Storage.Models.{StoreResult}
use airflow_kbo.Storage.RawStore.{HdfsClient, Python, StorageConfig, read_raw_bundle}

-- A file store that works: while it is up a write succeeds and is read back, and leaves the files at
-- the paths apart from it as they were.
pub record Works {F : Type 0} (client : HdfsClient F) (IsUp : F → Type 0)
    (Apart : String → String → Type 0) : Type 0 where
  pub puts :
      (path : String) (content : List ℕ) (f : F)
      → IsUp f
      → (f' : F) × (client.put_bytes path content f ≡ (ok tt, f'))
        × IsUp f'
        × (client.exists path f' ≡ true)
        × (client.get_bytes path f' ≡ ok content)
        × ((other : String)
            → Apart path other
            → (client.exists other f' ≡ client.exists other f)
              × (client.get_bytes other f' ≡ client.get_bytes other f))
  pub makes_dirs :
      (path : String) (f : F)
      → IsUp f
      → (f' : F) × (client.ensure_dir path f ≡ (ok tt, f')) × IsUp f'

-- `json.loads` gives back what `json.dumps` has written of a dict that JSON can hold, the order of
-- the keys aside.
abbrev pub ReadsBack : Python → (Dict → Type 0) → Type 0
ReadsBack py IsJson =
    (d : Dict)
    → IsJson d
    → (d' : Dict) × (py.loads (py.dumps d) ≡ ok d') × ((k : String) → get k d' ≡ get k d)

module _ ⦃u : Unicode⦄ {F : Type 0} (client : HdfsClient F) (py : Python) (cfg : StorageConfig)
    (IsUp : F → Type 0) (Apart : String → String → Type 0) (works : Works client IsUp Apart)
    (IsJson : Dict → Type 0) (json : ReadsBack py IsJson) where
  abbrev pub meta_path : String → String
  meta_path hdfs_dir = join_hdfs_path hdfs_dir cfg.metadata_filename

  abbrev pub StoredAs : String → List ℕ → Dict → StoreResult → F → Type 0
  StoredAs hdfs_dir content meta r f =
      (r.hdfs_dir ≡ hdfs_dir)
      × (r.size_bytes ≡ length content)
      × (r.sha256 ≡ py.sha256 content)
      × ((d : Dict) × (read_raw_bundle client py cfg hdfs_dir f ≡ (ok (content, d), f))
          × ((k : String) → get k d ≡ get k meta))
