-- ===== src/Persistence/Session.antt =====
-- packages/persistence/models.py: the tables, and a session on them. A session is the view of one
-- transaction; `clock n` is what the n-th call of `datetime.now(UTC)` returns, in microseconds,
-- and `locked` are the rows that other transactions hold locked.
use airflow_kbo.Prelude.{
  ℕ, suc, String, ◌≡◌, Bool, true, ◌||◌, not, Option, List, [], ◌∷◌, ◌++◌, if◌then◌else◌, All,
}
use airflow_kbo.Text.{Unicode}
use airflow_kbo.Action.{Action, ok, err, integrity_error}
use airflow_kbo.Payload.{Payload, Value}
use airflow_kbo.Storage.Paths.{IsNumber}
use airflow_kbo.Persistence.Enums.{SeedSource, ProcessingState, RawDocumentStatus}
use airflow_kbo.Persistence.Table.{has_key, find_key, IsUnique}

pub record Enterprise : Type 0 where
  pub enterprise_number : String
  pub seed_source : SeedSource

pub record StateRow : Type 0 where
  pub enterprise_number : String
  pub state : ProcessingState
  pub state_since : ℕ
  pub lock_owner : Option String
  pub lock_until : Option ℕ
  pub updated_at : ℕ
  pub version : ℕ

pub record RawDocument : Type 0 where
  pub enterprise_number : String
  pub source : String
  pub doc_type : String
  pub run_id : String
  pub hdfs_dir : String
  pub document_path : String
  pub metadata_path : String
  pub sha256 : String
  pub size_bytes : ℕ
  pub scraped_at : ℕ
  pub http_status : ℕ
  pub download_status : String
  pub attempt_count : ℕ
  pub status : RawDocumentStatus

pub record Snapshot : Type 0 where
  pub enterprise_number : String
  pub snapshot_at : ℕ
  pub schema_version : ℕ
  pub payload : Payload

pub record Discovery : Type 0 where
  pub source_enterprise_number : String
  pub discovered_enterprise_number : String
  pub reason : String
  pub reason_code : Option String
  pub discovered_at : ℕ

pub record HistoryRow : Type 0 where
  pub enterprise_number : String
  pub business_status : String
  pub status_label : Value
  pub legal_form : Value
  pub recorded_at : ℕ

pub record Session : Type 0 where
  pub clock : ℕ → ℕ
  pub ticks : ℕ
  pub locked : List String
  pub enterprises : List Enterprise
  pub states : List StateRow
  pub documents : List RawDocument
  pub snapshots : List Snapshot
  pub discoveries : List Discovery
  pub history : List HistoryRow

-- datetime.now(UTC)
abbrev pub utc_now : Action Session ℕ
utc_now s = (ok (s.clock s.ticks), record s { ticks = suc s.ticks })

abbrev pub enterprise_key : Enterprise → String
enterprise_key e = e.enterprise_number

abbrev pub state_key : StateRow → String
state_key r = r.enterprise_number

-- session.get(Enterprise, number), session.get(EnterpriseProcessingState, number)
abbrev pub find_enterprise : String → Session → Option Enterprise
find_enterprise number s = find_key enterprise_key number s.enterprises

abbrev pub find_state : String → Session → Option StateRow
find_state number s = find_key state_key number s.states

abbrev pub is_known : String → Session → Bool
is_known number s = has_key enterprise_key number s.enterprises

-- Inserts at a flush: the primary key and the foreign key are checked.
unfoldable pub insert_enterprise : Enterprise → Action Session Unit
insert_enterprise e s =
    if has_key enterprise_key e.enterprise_number s.enterprises
    then (err integrity_error, s)
    else (ok tt, record s { enterprises = s.enterprises ++ e ∷ [] })

unfoldable pub insert_state : StateRow → Action Session Unit
insert_state r s =
    if has_key state_key r.enterprise_number s.states || not (is_known r.enterprise_number s)
    then (err integrity_error, s)
    else (ok tt, record s { states = s.states ++ r ∷ [] })

-- What holds of every database that the program writes: the keys are unique and normalised, an
-- enterprise has a processing state and the other way round, and every row of the other tables
-- belongs to a registered enterprise.
pub record IsSound ⦃u : Unicode⦄ (s : Session) : Type 0 where
  pub unique_enterprises : IsUnique enterprise_key s.enterprises
  pub unique_states : IsUnique state_key s.states
  pub tracked : (k : String) → has_key state_key k s.states ≡ is_known k s
  pub numbers : All (λ (r : StateRow). IsNumber r.enterprise_number) s.states
  pub documents_known : All (λ (d : RawDocument). is_known d.enterprise_number s ≡ true) s.documents
  pub snapshots_known : All (λ (d : Snapshot). is_known d.enterprise_number s ≡ true) s.snapshots
  pub discoveries_known :
      All (λ (d : Discovery). is_known d.discovered_enterprise_number s ≡ true) s.discoveries
  pub history_known : All (λ (d : HistoryRow). is_known d.enterprise_number s ≡ true) s.history
