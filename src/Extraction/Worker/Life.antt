-- ===== src/Extraction/Worker/Life.antt =====
-- packages/extraction/worker.py follows the graph of the processing states.
use airflow_kbo.Prelude.{
  ℕ, String, refl, true, false, some, none, List, [], ◌∷◌, if◌then◌else◌, length, inl, inr,
}
use airflow_kbo.Text.{Unicode}
use airflow_kbo.Action.{Action, Result, ok, err, Result-cases, pure, ◌>>◌}
use airflow_kbo.Payload.{Dict, Payload}
use airflow_kbo.Persistence.Enums.{parsing, structured, failed_parse}
use airflow_kbo.Persistence.Session.{Session, RawDocument, IsSound, utc_now}
use airflow_kbo.Persistence.Repositories.{transition_state, claim_enterprises_for_parse}
use airflow_kbo.Persistence.Records.{append_snapshot}
use airflow_kbo.Persistence.Life.{parsed, not_parsed, Evolves, Evolves-refl, Evolves-trans}
use airflow_kbo.Persistence.Life.Steps.{
  Lives, Lives-bind, pure-Lives, Evolves-same, transition_state-Lives,
}
use airflow_kbo.Persistence.Life.Writes.{
  utc_now-Lives, append_snapshot-Lives, claim_enterprises_for_parse-Lives,
}
use airflow_kbo.Discovery.{EnqueueDecision, apply_discovery_from_parse}
use airflow_kbo.Discovery.Life.{apply_discovery-Lives}
use airflow_kbo.Extraction.{consolidate_parsed_documents}
use airflow_kbo.Extraction.Parse.{ExtractionConfig, Parsers}
use airflow_kbo.Extraction.Worker.{
  Outcome, succeeded, failed, Gathered, gathered, documents_of, ParseBatchReport, count_outcome,
  close, rollback, fail_parse, store_parsed, parse_documents, parse_enterprise, parse_all,
  parse_batch, is_empty_payload,
}

module _ ⦃u : Unicode⦄ where
  -- A rollback leaves the rows as they were.
  pub rollback-Lives :
      (before after : Session)
      → IsSound before
      → IsSound (rollback before after) × Evolves before (rollback before after)
  rollback-Lives before after sound = (
    record {
      unique_enterprises = sound.unique_enterprises;
      unique_states = sound.unique_states;
      tracked = sound.tracked;
      numbers = sound.numbers;
      documents_known = sound.documents_known;
      snapshots_known = sound.snapshots_known;
      discoveries_known = sound.discoveries_known;
      history_known = sound.history_known;
    },
    Evolves-same before _ refl,
  )

  pub close-Lives :
      {A : Type 0} (before : Session) (out : Result A × Session)
      → IsSound before
      → IsSound out.1 × Evolves before out.1
      → IsSound (close before out) × Evolves before (close before out)
  close-Lives before (ok a, after) sound h = h
  close-Lives before (err e, after) sound h = rollback-Lives before after sound

module _ ⦃u : Unicode⦄ (read_raw_bundle : String → Result (List ℕ × Dict)) (p : Parsers)
    (translate : Dict → Dict) (cfg : ExtractionConfig) where
  fail_parse-Lives :
      (number reason : String) → Lives (fail_parse read_raw_bundle p translate cfg number reason)
  unfolding fail_parse
  fail_parse-Lives number reason =
      Lives-bind (transition_state number parsing failed_parse (some cfg.worker_id) none)
        (λ row. pure (failed reason))
        (transition_state-Lives number parsing failed_parse (some cfg.worker_id) none not_parsed)
        (λ row. pure-Lives (ok (failed reason)))

  finish : String → Gathered → Payload → Action Session Outcome
  finish number g payload =
      if is_empty_payload payload
      then fail_parse read_raw_bundle p translate cfg number "empty_snapshot_payload"
      else (apply_discovery_from_parse number g.candidates "ENTITY_LINK"
          >> (transition_state number parsing structured (some cfg.worker_id) none
              >> pure succeeded))

  finish-Lives :
      (number : String) (g : Gathered) (payload : Payload) → Lives (finish number g payload)
  unfolding finish
  finish-Lives number g payload =
      elim (is_empty_payload payload)
        as (λ b. Lives (
          if b
          then fail_parse read_raw_bundle p translate cfg number "empty_snapshot_payload"
          else (apply_discovery_from_parse number g.candidates "ENTITY_LINK"
              >> (transition_state number parsing structured (some cfg.worker_id) none
                  >> pure succeeded)))) [
                    | true ↦ fail_parse-Lives number "empty_snapshot_payload"
                    | false ↦
                        Lives-bind {A = List EnqueueDecision}
                          (apply_discovery_from_parse number g.candidates "ENTITY_LINK")
                          (λ ds.
                            transition_state number parsing structured (some cfg.worker_id) none
                            >> pure succeeded)
                          (apply_discovery-Lives number g.candidates "ENTITY_LINK")
                          (λ ds.
                            Lives-bind
                              (transition_state number parsing structured (some cfg.worker_id) none)
                              (λ row. pure succeeded)
                              (transition_state-Lives number parsing structured (some cfg.worker_id)
                                none parsed)
                              (λ row. pure-Lives (ok succeeded)))
                  ]

  store_parsed-Lives :
      (number : String) (g : Gathered)
      → Lives (store_parsed read_raw_bundle p translate cfg number g)
  unfolding store_parsed finish
  store_parsed-Lives number g s sound =
      let payload : ℕ → Payload =
        λ now. consolidate_parsed_documents p.show translate now number g.parsed in
      Lives-bind utc_now
        (λ now.
          append_snapshot number (payload now) cfg.schema_version >> finish number g (payload now))
        utc_now-Lives
        (λ now.
          Lives-bind (append_snapshot number (payload now) cfg.schema_version)
            (λ row. finish number g (payload now))
            (append_snapshot-Lives number (payload now) cfg.schema_version)
            (λ row. finish-Lives number g (payload now)))
        s sound

  parse_documents-Lives :
      (number : String) (docs : List RawDocument)
      → Lives (parse_documents read_raw_bundle p translate cfg number docs)
  unfolding parse_documents
  parse_documents-Lives number [] = fail_parse-Lives number "no_raw_documents"
  parse_documents-Lives number (doc ∷ docs) =
      let g = gathered read_raw_bundle p translate cfg number (doc ∷ docs) in
      elim g.any_ok
        as (λ b. Lives (
          if b
          then store_parsed read_raw_bundle p translate cfg number g
          else fail_parse read_raw_bundle p translate cfg number "all_documents_failed")) [
            | true ↦ store_parsed-Lives number g
            | false ↦ fail_parse-Lives number "all_documents_failed"
          ]

  parse_enterprise-Lives :
      (number : String) → Lives (parse_enterprise read_raw_bundle p translate cfg number)
  unfolding parse_enterprise
  parse_enterprise-Lives number s sound =
      parse_documents-Lives number (documents_of number s) s sound

  parse_all-Lives :
      (numbers : List String) (report : ParseBatchReport) (s : Session)
      → IsSound s
      → let out = parse_all read_raw_bundle p translate cfg numbers report s in
        IsSound out.1 × Evolves s out.1
  unfolding parse_all
  parse_all-Lives [] report s sound = (sound, Evolves-refl s)
  parse_all-Lives (number ∷ numbers) report s sound =
      let out = parse_enterprise read_raw_bundle p translate cfg number s in
      let (sound', life) = close-Lives s out sound (parse_enterprise-Lives number s sound) in
      let (sound'', rest) =
        parse_all-Lives numbers (count_outcome number out.0 report) (close s out) sound' in
      (sound'', Evolves-trans s (close s out) _ life rest)

  pub parse_batch-Lives : (limit : ℕ) → Lives (parse_batch read_raw_bundle p translate cfg limit)
  unfolding parse_batch
  parse_batch-Lives limit s sound =
      let claim = claim_enterprises_for_parse limit cfg.worker_id 300 s in
      let (sound', life) = claim_enterprises_for_parse-Lives limit cfg.worker_id 300 s sound in
      elim (Result-cases claim.0) [
        | inr (e, failed_claim) ↦ rw failed_claim (rollback-Lives s claim.1 sound)
        | inl (claimed, done) ↦
            let (sound'', rest) =
              parse_all-Lives claimed
                (record { claimed = length claimed; succeeded = 0; failed = 0; enterprises = [] })
                claim.1 sound' in
            rw done (sound'', Evolves-trans s claim.1 _ life rest)
      ]
