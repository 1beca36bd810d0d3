-- ===== src/Lifecycle.antt =====
-- packages/lifecycle/status.py: the business status of an enterprise, and its history.
pub mod Labels
pub mod History
pub mod Scheduler
pub mod Life
use Prim.Native.Nat.{◌/◌}
use airflow_kbo.Prelude.{
  ℕ, suc, ◌+◌, String, ◌≡◌, Bool, true, false, not, ◌&&◌, ◌||◌, Option, none, some, List, [], ◌∷◌,
  ◌++◌, ◌==◌, any, keep, leb, ltb, nat_eq, if◌then◌else◌,
}
use airflow_kbo.Text.{Unicode, truthy, contains}
use airflow_kbo.Action.{
  Action, Result, ok, err, pure, ◌>>=◌, ◌>>◌, integrity_error, attribute_error, lift,
}
use airflow_kbo.Discovery.{newest_first}
use airflow_kbo.Payload.{
  is_true, Value, null, text, Dict, get, is_some, ParsedDocument, Detail, Payload,
}
use airflow_kbo.Persistence.Session.{Session, Snapshot, HistoryRow, is_known, utc_now}

unfoldable pub status_of_text : String → String
status_of_text low =
    if contains "actief" low || contains "actif" low
    then "ACTIVE"
    else if contains "inactief" low || contains "inactif" low
    then "INACTIVE"
    else if contains "stop" low || (contains "radi" low || contains "cess" low)
    then "STRUCK_OFF"
    else if contains "fus" low || contains "merge" low
    then "MERGED"
    else "UNKNOWN"

-- A label that is missing or empty is unknown.
unfoldable pub map_status_label : ⦃u : Unicode⦄ → Option String → String
map_status_label none = "UNKNOWN"
map_status_label ⦃u⦄ (some label) =
    if truthy label then status_of_text (u.lower label) else "UNKNOWN"

-- `recorded_at.date()`: clocks count microseconds.
unfoldable pub day : ℕ → ℕ
day t = t / 86_400_000_000

-- The latest of the rows of a number and a status: `ORDER BY recorded_at DESC LIMIT 1`.
unfoldable pub latest_row : String → String → List HistoryRow → Option HistoryRow
latest_row number status [] = none
latest_row number status (r ∷ rows) =
    let rest = latest_row number status rows in
    if r.enterprise_number == number && r.business_status == status
    then (elim rest [
      | none ↦ some r
      | some x ↦ if ltb r.recorded_at x.recorded_at then some x else some r
    ])
    else rest

abbrev pub is_of_day : ℕ → Option HistoryRow → Bool
is_of_day now none = false
is_of_day now (some r) = nat_eq (day r.recorded_at) (day now)

-- session.add(row); session.flush()
unfoldable pub insert_history : HistoryRow → Action Session Unit
insert_history r s =
    if is_known r.enterprise_number s
    then (ok tt, record s { history = s.history ++ r ∷ [] })
    else (err integrity_error, s)

-- `status_label` and `legal_form` are the payload of the row.
unfoldable pub append_business_status : String → String → Value → Value → Action Session Bool
append_business_status number status status_label legal_form = do
  today ← utc_now
  λ s. elim (is_of_day today (latest_row number status s.history)) [
    | true ↦ (ok false, s)
    | false ↦
        (do
          now ← utc_now
          insert_history (record {
            enterprise_number = number;
            business_status = status;
            status_label = status_label;
            legal_form = legal_form;
            recorded_at = now;
          })
          pure true)
          s
  ]

-- d.get("source") == "kbo" and d.get("doc_type") == "enterprise_detail"
abbrev pub is_kbo_detail : ParsedDocument → Bool
is_kbo_detail d = d.source == "kbo" && d.doc_type == "enterprise_detail"

abbrev pub is_skipped : Bool → ParsedDocument → Bool
is_skipped has_detail d = not (d.source == "kbo") || (has_detail && d.doc_type == "profile")

-- The fields of the first KBO document that has some; a profile counts only without a detail.
unfoldable pub first_kbo_fields : Bool → List ParsedDocument → Option Dict
first_kbo_fields has_detail [] = none
first_kbo_fields has_detail (d ∷ ds) =
    let rest = first_kbo_fields has_detail ds in
    if is_skipped has_detail d then rest else elim d.fields [ [] ↦ rest | f ∷ fs ↦ some (f ∷ fs) ]

abbrev pub or_keys : Option Dict → Dict → Dict
or_keys none keys = keys
or_keys (some fields) keys = fields

unfoldable pub kbo_fields_from_payload : Payload → Dict
kbo_fields_from_payload p =
    let from_documents = first_kbo_fields (any is_kbo_detail p.documents) p.documents in
    elim p.enterprise_detail [
      | none ↦ or_keys from_documents []
      | some detail ↦
          if is_some (get "status_label" detail.keys)
          then detail.keys
          else or_keys from_documents detail.keys
    ]

-- The label of a status: a text, or what Python takes for false; `lower` fails on anything else.
abbrev pub label_of : Value → Result (Option String)
label_of (text s) = ok (some s)
label_of v = if is_true v then err attribute_error else ok none

-- Without a snapshot nothing is recorded.
unfoldable pub record_from : ⦃u : Unicode⦄ → String → List Snapshot → Action Session Bool
record_from number [] = pure false
record_from number (snap ∷ older) = do
  label ← lift (label_of (get "status_label" (kbo_fields_from_payload snap.payload)))
  append_business_status number (map_status_label label)
      (get "status_label" (kbo_fields_from_payload snap.payload))
      (get "legal_form" (kbo_fields_from_payload snap.payload))

-- The status by the latest snapshot of the enterprise.
unfoldable pub record_business_status_from_snapshot : ⦃u : Unicode⦄ → String → Action Session Bool
unfolding record_from
record_business_status_from_snapshot number s =
    record_from number
      (newest_first (keep (λ (x : Snapshot). x.enterprise_number == number) s.snapshots)) s
