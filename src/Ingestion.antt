-- ===== src/Ingestion.antt =====
-- packages/ingestion/ingest.py, quarantine.py and report.py: the rows of a CSV file become
-- enterprises that wait to be scraped.
pub mod Columns
pub mod Upserts
pub mod Alike
pub mod Counts
pub mod Quarantine
use airflow_kbo.Prelude.{
  ℕ, zero, suc, ◌+◌, ◌-◌, String, ◌≡◌, Bool, true, false, ◌&&◌, ◌||◌, not, Option, none, some, List,
  [], ◌∷◌, ◌++◌, map, ◌==◌, if◌then◌else◌, any, length, leb, ltb,
}
use airflow_kbo.Text.{Unicode, truthy, strip}
use airflow_kbo.Action.{Action, Result, ok, err, pure, raise, lift, ◌>>=◌, ◌>>◌, value_error}
use airflow_kbo.Storage.Paths.{normalize_enterprise_number}
use airflow_kbo.Persistence.Enums.{SeedSource, csv, ProcessingState, queued_scrape}
use airflow_kbo.Persistence.Table.{has_key}
use airflow_kbo.Persistence.Session.{
  Session, Enterprise, StateRow, enterprise_key, state_key, is_known, utc_now,
}
use airflow_kbo.Persistence.Repositories.{upsert_enterprise, fresh_state}
use airflow_kbo.Persistence.Repositories.Upsert.{enterprise}

-- INSERT … ON CONFLICT DO NOTHING RETURNING: the table after it, and the rows that were inserted. A
-- row whose key stands in the table, or earlier in the statement, is left out.
module _ {A : Type 0} (key : A → String) where
  unfoldable pub insert_ignoring : List A → List A → List A × List A
  insert_ignoring [] table = (table, [])
  insert_ignoring (r ∷ rows) table =
      let there = has_key key (key r) table in
      let rest = insert_ignoring rows (if there then table else table ++ r ∷ []) in
      (rest.0, if there then rest.1 else r ∷ rest.1)

-- Why a line is rejected, and the lines of the quarantine file.
pub data Rejection : Type 0 where
  empty_value : Rejection
  invalid_number : Rejection

pub record QuarantineLine : Type 0 where
  pub line_number : ℕ
  pub raw_value : String
  pub reason : Rejection

-- The counters `created` and `already_existed`.
abbrev pub Counts : Type 0
Counts = ℕ × ℕ

-- The variables of the loop of `ingest_csv`.
pub record Ingest : Type 0 where
  pub rows_read : ℕ
  pub counts : Counts
  pub rejected : ℕ
  pub seen_in_file : List String
  pub pending_valid : List String
  pub quarantine : List QuarantineLine

pub record IngestReport : Type 0 where
  pub rows_read : ℕ
  pub created : ℕ
  pub already_existed : ℕ
  pub rejected : ℕ
  pub quarantine : List QuarantineLine

abbrev pub is_in : String → List String → Bool
is_in k ks = any (λ j. j == k) ks

abbrev pub seed : String → Enterprise
seed number = enterprise number csv

-- The numbers of a batch that were not seen in the file before.
pub record Batch : Type 0 where
  pub unique_new : List String
  pub already_existed : ℕ
  pub seen : List String

abbrev pub add_to_batch : String → Batch → Batch
add_to_batch number b =
    if is_in number b.seen
    then record b { already_existed = suc b.already_existed }
    else record b { unique_new = b.unique_new ++ number ∷ []; seen = number ∷ b.seen }

module _ ⦃u : Unicode⦄ where
  unfoldable pub collect_batch : List String → Batch → Result Batch
  collect_batch [] b = ok b
  collect_batch (raw ∷ raws) b = elim (normalize_enterprise_number raw) [
    | err e ↦ err e
    | ok number ↦ collect_batch raws (add_to_batch number b)
  ]

  -- The loop of the other databases: one upsert for each number.
  unfoldable pub upsert_each : List String → Counts → Action Session Counts
  upsert_each [] c s = (ok c, s)
  upsert_each (number ∷ numbers) (created, already_existed) s =
      let there = is_known number s in
      let skip = upsert_each numbers (created, suc already_existed) s in
      let add : Result Counts × Session =
        (upsert_enterprise number csv queued_scrape
            >> upsert_each numbers (suc created, already_existed))
          s in
      if there then skip else add

  -- `_upsert_batch_postgresql`: two statements.
  unfoldable pub upsert_batch_postgresql : List String → Counts → Action Session Counts
  unfolding insert_ignoring
  upsert_batch_postgresql numbers (created, already_existed) s =
      let now = s.clock s.ticks in
      let inserted = insert_ignoring enterprise_key (map seed numbers) s.enterprises in
      let rows =
        map (λ (e : Enterprise). fresh_state e.enterprise_number queued_scrape now) inserted.1 in
      (
        ok (created + length inserted.1, already_existed + (length numbers - length inserted.1)),
        record s {
          ticks = suc s.ticks;
          enterprises = inserted.0;
          states = (insert_ignoring state_key rows s.states).0;
        },
      )

  abbrev pub upsert_new : Bool → List String → Counts → Action Session Counts
  upsert_new postgresql numbers c =
      if postgresql then upsert_batch_postgresql numbers c else upsert_each numbers c

  -- Nothing is written where every number was seen before.
  unfoldable pub write_batch : Bool → List String → Counts → Action Session Counts
  write_batch postgresql [] c s = (ok c, s)
  write_batch postgresql (n ∷ ns) c s = upsert_new postgresql (n ∷ ns) c s

  -- The counts, and the numbers seen so far.
  unfoldable pub upsert_batch :
      Bool → List String → Counts → List String → Action Session (Counts × List String)
  unfolding collect_batch write_batch upsert_each upsert_batch_postgresql
  upsert_batch postgresql numbers (created, already_existed) seen = do
    batch ← lift (
        collect_batch numbers
          (record { unique_new = []; already_existed = already_existed; seen = seen }))
    counts ← write_batch postgresql batch.unique_new (created, batch.already_existed)
    pure (counts, batch.seen)

  -- The batch of the pending numbers, and its commit.
  unfoldable pub flush_batch : Bool → Ingest → Action Session Ingest
  flush_batch postgresql g = do
    (counts, seen) ← upsert_batch postgresql g.pending_valid g.counts g.seen_in_file
    pure (record g { counts = counts; seen_in_file = seen; pending_valid = [] })

  abbrev pub reject_line : ℕ → String → Rejection → Ingest → Ingest
  reject_line line_no raw reason g = record g {
    rejected = suc g.rejected;
    quarantine =
        g.quarantine ++ record { line_number = line_no; raw_value = raw; reason = reason } ∷ [];
  }

  -- An accepted value waits for its batch, which is written when it is full.
  unfoldable pub accept_value : Bool → ℕ → String → Ingest → Action Session Ingest
  unfolding flush_batch
  accept_value postgresql batch_size value g =
      let g' : Ingest = record g { pending_valid = g.pending_valid ++ value ∷ [] } in
      if leb batch_size (length g'.pending_valid) then flush_batch postgresql g' else pure g'

  -- One line of the file.
  unfoldable pub ingest_line : Bool → ℕ → ℕ → String → Ingest → Action Session Ingest
  unfolding accept_value
  ingest_line postgresql batch_size line_no raw g =
      let read : Ingest = record g { rows_read = suc g.rows_read } in
      if truthy (strip raw)
      then (elim (normalize_enterprise_number (strip raw)) [
        | err e ↦ pure (reject_line line_no raw invalid_number read)
        | ok number ↦ accept_value postgresql batch_size (strip raw) read
      ])
      else pure (reject_line line_no raw empty_value read)

  -- `if pending_valid`, after the last line.
  unfoldable pub flush_rest : Bool → Ingest → List String → Action Session Ingest
  flush_rest postgresql g [] = pure g
  flush_rest postgresql g (x ∷ xs) = flush_batch postgresql g

  unfoldable pub ingest_lines : Bool → ℕ → List (ℕ × String) → Ingest → Action Session Ingest
  ingest_lines postgresql batch_size [] g = flush_rest postgresql g g.pending_valid
  ingest_lines postgresql batch_size ((line_no, raw) ∷ lines) g = do
    g' ← ingest_line postgresql batch_size line_no raw g
    ingest_lines postgresql batch_size lines g'

  abbrev pub report_of : Ingest → IngestReport
  report_of g = record {
    rows_read = g.rows_read;
    created = g.counts.0;
    already_existed = g.counts.1;
    rejected = g.rejected;
    quarantine = g.quarantine;
  }

  abbrev pub start_ingest : Ingest
  start_ingest = record {
    rows_read = 0;
    counts = (0, 0);
    rejected = 0;
    seen_in_file = [];
    pending_valid = [];
    quarantine = [];
  }

  -- `lines` are the values that the stream yields.
  unfoldable pub ingest_csv : Bool → ℕ → List (ℕ × String) → Action Session IngestReport
  unfolding ingest_lines
  ingest_csv postgresql batch_size lines =
      if ltb batch_size 1
      then raise value_error
      else (do g ← ingest_lines postgresql batch_size lines start_ingest; pure (report_of g))
