-- ===== src/Discovery/Life.antt =====
-- packages/discovery/service.py: what the links of parsed documents do to the processing states.
use airflow_kbo.Prelude.{
  ℕ, ◌+◌, String, ◌≡◌, Bool, true, ◌||◌, Option, none, some, List, [], ◌∷◌, ◌++◌, ◌==◌, Bool-cases,
  Option-cases, inl, inr, any, length, count_if, take, keep, leb,
}
use airflow_kbo.Text.{Unicode, ◌<>◌}
use airflow_kbo.Action.{Action, ok, Result-cases, Obeys, Obeys-bind, ◌>>=◌, pure}
use airflow_kbo.Storage.Paths.{normalize_enterprise_number}
use airflow_kbo.Persistence.Enums.{discovered, ProcessingState, new, queued_scrape}
use airflow_kbo.Persistence.Session.{Session, Snapshot, find_state, IsSound, utc_now}
use airflow_kbo.Persistence.Repositories.{transition_state, upsert_enterprise}
use airflow_kbo.Persistence.Records.{record_discovery}
use airflow_kbo.Persistence.Life.{
  ◌⟶◌, discover, enqueue, retry_scrape, retry_parse, Evolves, Evolves-refl, Evolves-trans,
}
use airflow_kbo.Persistence.Life.Steps.{Lives, Lives-bind, pure-Lives, transition_state-Lives}
use airflow_kbo.Persistence.Life.Writes.{
  upsert_enterprise-Lives, record_discovery-Lives, utc_now-Lives,
}
use airflow_kbo.Discovery.{
  EnqueueDecision, terminal_or_done, is_requeued, is_absent, decide_enqueue, enqueue_if_new,
  discover_all, apply_discovery_from_parse, fanout_all, fanout_from_recent_snapshots, candidates_of,
  newest_first, hours_before,
}

requeued_edge : (p : ProcessingState) → is_requeued p ≡ true → some p ⟶ some queued_scrape
requeued_edge ProcessingState.new h = enqueue
requeued_edge ProcessingState.failed_scrape h = retry_scrape
requeued_edge ProcessingState.failed_parse h = retry_parse
requeued_edge ProcessingState.queued_scrape h = absurd cc
requeued_edge ProcessingState.scraping h = absurd cc
requeued_edge ProcessingState.raw_stored h = absurd cc
requeued_edge ProcessingState.queued_parse h = absurd cc
requeued_edge ProcessingState.parsing h = absurd cc
requeued_edge ProcessingState.structured h = absurd cc
requeued_edge ProcessingState.failed_validate h = absurd cc

-- What holds of the two actions of the loop holds of the loop.
module _ ⦃u : Unicode⦄ (R : Session → Session → Type 0)
    (compose : (s t v : Session) → R s t → R t v → R s v) (same : (s : Session) → R s s)
    (recording : (source number reason : String) (code : Option String)
      → Obeys IsSound R (record_discovery source number reason code))
    (enqueuing : (raw : String) → Obeys IsSound R (enqueue_if_new raw)) where
  discover_all-Obeys :
      (source reason_code : String) (seen : List String) (before : List EnqueueDecision)
      (candidates : List String)
      → Obeys IsSound R (discover_all source reason_code seen before candidates)
  unfolding discover_all
  discover_all-Obeys source reason_code seen before [] s sound = (sound, same s)
  discover_all-Obeys source reason_code seen before (raw ∷ candidates) s sound =
      elim (Result-cases (normalize_enterprise_number raw)) [
        | inr (e, refused) ↦
            rw (refused, discover_all)
              (discover_all-Obeys source reason_code seen before candidates s sound)
        | inl (number, n) ↦ elim (Bool-cases (number == source || any (λ k. k == number) seen)) [
          | inl again ↦
              rw (n, discover_all)
                (rw again (discover_all-Obeys source reason_code seen before candidates s sound))
          | inr first ↦
              rw (n, discover_all)
                (rw first (
                  Obeys-bind IsSound R compose
                    (record_discovery source number ("Link from " <> source <> " parse")
                      (some reason_code))
                    (λ d. enqueue_if_new number >>= λ decision.
                      discover_all source reason_code (number ∷ seen) (before ++ decision ∷ [])
                        candidates)
                    (recording source number _ _)
                    (λ d.
                      Obeys-bind IsSound R compose (enqueue_if_new number)
                        (λ decision.
                          discover_all source reason_code (number ∷ seen) (before ++ decision ∷ [])
                            candidates)
                        (enqueuing number)
                        (λ decision.
                          discover_all-Obeys source reason_code (number ∷ seen)
                            (before ++ decision ∷ []) candidates))
                    s sound))
        ]
      ]

  pub apply_discovery-Obeys :
      (raw : String) (candidates : List String) (reason_code : String)
      → Obeys IsSound R (apply_discovery_from_parse raw candidates reason_code)
  unfolding apply_discovery_from_parse
  apply_discovery-Obeys raw candidates reason_code s sound =
      elim (Result-cases (normalize_enterprise_number raw)) [
        | inr (e, refused) ↦ rw refused (sound, same s)
        | inl (source, n) ↦ rw n (discover_all-Obeys source reason_code [] [] candidates s sound)
      ]

module _ ⦃u : Unicode⦄ where
  decide_enqueue-Lives :
      (number registered_number : String) (created : Bool)
      → Lives (decide_enqueue number registered_number created)
  unfolding decide_enqueue
  decide_enqueue-Lives number registered_number created s sound =
      elim (Option-cases (find_state registered_number s)) [
        | inl absent ↦ rw (absent, decide_enqueue) (sound, Evolves-refl s)
        | inr (row, found) ↦ elim (Bool-cases (terminal_or_done row.state)) [
          | inl done ↦ rw (found, decide_enqueue) (rw done (sound, Evolves-refl s))
          | inr open_state ↦ elim (Bool-cases (is_requeued row.state)) [
            | inr stays ↦
                rw (found, decide_enqueue) (rw open_state (rw stays (sound, Evolves-refl s)))
            | inl back ↦
                rw (found, decide_enqueue)
                  (rw open_state (
                    rw back (
                      Lives-bind (transition_state number row.state queued_scrape none none)
                        (λ r.
                          pure (record {
                            enterprise_number = number;
                            created = created;
                            queued = true;
                          }))
                        (transition_state-Lives number row.state queued_scrape none none
                          (requeued_edge row.state back))
                        (λ r. pure-Lives {A = EnqueueDecision} (
                          ok (record {
                            enterprise_number = number;
                            created = created;
                            queued = true;
                          })))
                        s sound)))
          ]
        ]
      ]

  pub enqueue_if_new-Lives : (raw : String) → Lives (enqueue_if_new raw)
  unfolding enqueue_if_new
  enqueue_if_new-Lives raw s sound = elim (Result-cases (normalize_enterprise_number raw)) [
    | inr (e, refused) ↦ rw refused (sound, Evolves-refl s)
    | inl (number, n) ↦ rw n (
        Lives-bind (upsert_enterprise number discovered new)
          (λ e. decide_enqueue number e.enterprise_number (is_absent (find_state number s)))
          (upsert_enterprise-Lives number discovered new discover)
          (λ e. decide_enqueue-Lives number e.enterprise_number (is_absent (find_state number s))) s
          sound)
  ]

  pub apply_discovery-Lives :
      (raw : String) (candidates : List String) (reason_code : String)
      → Lives (apply_discovery_from_parse raw candidates reason_code)
  apply_discovery-Lives raw candidates reason_code =
      apply_discovery-Obeys Evolves Evolves-trans Evolves-refl record_discovery-Lives
        enqueue_if_new-Lives raw candidates reason_code

  fanout_all-Lives : (snaps : List Snapshot) (a b : ℕ) → Lives (fanout_all snaps a b)
  unfolding fanout_all
  fanout_all-Lives [] a b = pure-Lives {A = ℕ × ℕ} (ok (a, b))
  fanout_all-Lives (snap ∷ snaps) a b =
      Lives-bind
        (apply_discovery_from_parse snap.enterprise_number (candidates_of snap.payload)
          "ENTITY_LINK")
        (λ ds.
          fanout_all snaps (a + length ds) (b + count_if (λ (d : EnqueueDecision). d.queued) ds))
        (apply_discovery-Lives snap.enterprise_number (candidates_of snap.payload) "ENTITY_LINK")
        (λ ds. fanout_all-Lives snaps _ _)

  pub fanout_from_recent_snapshots-Lives :
      (hours limit : ℕ) → Lives (fanout_from_recent_snapshots hours limit)
  unfolding fanout_from_recent_snapshots
  fanout_from_recent_snapshots-Lives hours limit s sound =
      let recent : ℕ → Session → List Snapshot = λ now t. take limit (
        newest_first
          (keep (λ (x : Snapshot). leb (hours_before hours now) x.snapshot_at) t.snapshots)) in
      let report : ℕ × ℕ → Action Session (ℕ × ℕ × ℕ) =
        λ totals. pure (limit, totals.0, totals.1) in
      Lives-bind utc_now (λ now. λ t. (fanout_all (recent now t) 0 0 >>= report) t) utc_now-Lives
        (λ now t ok_t.
          Lives-bind (fanout_all (recent now t) 0 0) report (fanout_all-Lives (recent now t) 0 0)
            (λ totals. pure-Lives {A = ℕ × ℕ × ℕ} (ok (limit, totals.0, totals.1))) t ok_t)
        s sound
