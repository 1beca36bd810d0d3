-- ===== src/Discovery.antt =====
-- packages/discovery/service.py: new enterprises from the links of parsed documents.
pub mod Enqueue
pub mod Fanout
pub mod Life
pub mod Undisturbed
use airflow_kbo.Prelude.{
  ℕ, suc, ◌+◌, ◌-◌, ◌*◌, String, ◌≡◌, Bool, true, false, ◌&&◌, ◌||◌, not, Option, none, some, List,
  [], ◌∷◌, ◌++◌, ◌==◌, if◌then◌else◌, any, count_if, leb, take, keep, length,
}
use airflow_kbo.Text.{Unicode, ◌<>◌}
use airflow_kbo.Action.{Action, Result, ok, err, pure, raise, lift, ◌>>=◌, ◌>>◌}
use airflow_kbo.Payload.{Payload, Value, get, as_texts, ParsedDocument}
use airflow_kbo.Storage.Paths.{normalize_enterprise_number}
use airflow_kbo.Persistence.Enums.{
  ProcessingState, discovered, new, queued_scrape, scraping, raw_stored, queued_parse, parsing,
  structured, failed_scrape, failed_parse, failed_validate,
}
use airflow_kbo.Persistence.Session.{Session, StateRow, Snapshot, find_state, utc_now}
use airflow_kbo.Persistence.Repositories.{upsert_enterprise, transition_state}
use airflow_kbo.Persistence.Records.{record_discovery}

pub record EnqueueDecision : Type 0 where
  pub enterprise_number : String
  pub created : Bool
  pub queued : Bool

-- The states that a discovery leaves alone, and those that it puts back on the queue.
abbrev pub terminal_or_done : ProcessingState → Bool
terminal_or_done structured = true
terminal_or_done queued_scrape = true
terminal_or_done scraping = true
terminal_or_done queued_parse = true
terminal_or_done parsing = true
terminal_or_done raw_stored = true
terminal_or_done _ = false

abbrev pub is_requeued : ProcessingState → Bool
is_requeued new = true
is_requeued failed_scrape = true
is_requeued failed_parse = true
is_requeued _ = false

abbrev pub is_absent : Option StateRow → Bool
is_absent none = true
is_absent (some row) = false

-- datetime.now(UTC) - timedelta(hours=hours)
abbrev pub hours_before : ℕ → ℕ → ℕ
hours_before hours now = now - hours * 3_600_000_000

-- Newest first.
unfoldable pub insert_newest : Snapshot → List Snapshot → List Snapshot
insert_newest x [] = x ∷ []
insert_newest x (y ∷ rows) =
    if leb y.snapshot_at x.snapshot_at then x ∷ y ∷ rows else y ∷ insert_newest x rows

unfoldable pub newest_first : List Snapshot → List Snapshot
unfolding insert_newest
newest_first [] = []
newest_first (x ∷ rows) = insert_newest x (newest_first rows)

-- The links of one document: those of a KBO profile are skipped.
abbrev pub document_links : ParsedDocument → List String
document_links d =
    if d.source == "kbo" && d.doc_type == "profile"
    then []
    else as_texts (get "entity_links" d.fields)

unfoldable pub links_of_documents : List ParsedDocument → List String
links_of_documents [] = []
links_of_documents (d ∷ ds) = document_links d ++ links_of_documents ds

-- The links of `enterprise_detail`, then those of the documents.
unfoldable pub candidates_of : Payload → List String
unfolding links_of_documents
candidates_of payload =
    elim payload.enterprise_detail [
      | none ↦ []
      | some detail ↦ as_texts (get "entity_links" detail.keys)
    ]
    ++ links_of_documents payload.documents

module _ ⦃u : Unicode⦄ where
  -- What is decided from the state row, once the enterprise is registered.
  unfoldable pub decide_enqueue : String → String → Bool → Action Session EnqueueDecision
  decide_enqueue number registered_number created s = elim (find_state registered_number s) [
    | none ↦ (ok (record { enterprise_number = number; created = true; queued = false }), s)
    | some row ↦
        if terminal_or_done row.state
        then (ok (record { enterprise_number = number; created = created; queued = false }), s)
        else if is_requeued row.state
        then (transition_state number row.state queued_scrape none none
              >> pure (record { enterprise_number = number; created = created; queued = true }))
            s
        else (ok (record { enterprise_number = number; created = created; queued = false }), s)
  ]

  unfoldable pub enqueue_if_new : String → Action Session EnqueueDecision
  enqueue_if_new raw = do
    number ← lift (normalize_enterprise_number raw)
    λ s.
        let created = is_absent (find_state number s) in
        (upsert_enterprise number discovered new >>= λ enterprise.
        decide_enqueue number enterprise.enterprise_number created)
          s

  -- The `for` loop over the candidates: `seen` are the numbers handled so far.
  unfoldable pub discover_all :
      String
      → String
      → List String
      → List EnqueueDecision
      → List String
      → Action Session (List EnqueueDecision)
  discover_all source reason_code seen decisions [] s = (ok decisions, s)
  discover_all source reason_code seen decisions (raw ∷ candidates) s =
      elim (normalize_enterprise_number raw) [
        | err e ↦ discover_all source reason_code seen decisions candidates s
        | ok number ↦
            let skip = discover_all source reason_code seen decisions candidates s in
            let go : Result (List EnqueueDecision) × Session =
              (record_discovery source number ("Link from " <> source <> " parse")
                    (some reason_code)
                  >> (enqueue_if_new number >>= λ decision.
                      discover_all source reason_code (number ∷ seen) (decisions ++ decision ∷ [])
                        candidates))
                s in
            if number == source || any (λ k. k == number) seen then skip else go
      ]

  unfoldable pub apply_discovery_from_parse :
      String → List String → String → Action Session (List EnqueueDecision)
  apply_discovery_from_parse raw_source candidates reason_code = do
    source ← lift (normalize_enterprise_number raw_source)
    discover_all source reason_code [] [] candidates

  -- The `for` loop over the snapshots: the sums of decisions and of queued decisions.
  unfoldable pub fanout_all : List Snapshot → ℕ → ℕ → Action Session (ℕ × ℕ)
  fanout_all [] recorded enqueued = pure (recorded, enqueued)
  fanout_all (snap ∷ snaps) recorded enqueued = do
    decisions ←
        apply_discovery_from_parse snap.enterprise_number (candidates_of snap.payload) "ENTITY_LINK"
    fanout_all snaps (recorded + length decisions)
        (enqueued + count_if (λ (d : EnqueueDecision). d.queued) decisions)

  -- The report: `snapshots_scanned`, `discoveries_recorded`, `enqueued`.
  unfoldable pub fanout_from_recent_snapshots : ℕ → ℕ → Action Session (ℕ × ℕ × ℕ)
  fanout_from_recent_snapshots hours limit = do
    now ← utc_now
    λ s.
        let recent =
          keep (λ (x : Snapshot). leb (hours_before hours now) x.snapshot_at) s.snapshots in
        (fanout_all (take limit (newest_first recent)) 0 0 >>= λ totals.
        pure (limit, totals.0, totals.1))
          s
