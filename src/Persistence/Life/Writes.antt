-- ===== src/Persistence/Life/Writes.antt =====
-- The writes of packages/persistence/repositories.py and packages/discovery/service.py follow the
-- graph of the processing states: registrations, claims, records, discoveries.
use airflow_kbo.Prelude.{
  ℕ, String, refl, Option, none, some, List, [], ◌∷◌, Bool-cases, Option-cases, inl, inr, find, ◌+◌,
  ◌*◌,
}
use airflow_kbo.Text.{Unicode}
use airflow_kbo.Action.{Action, ok, Result-cases, ◌>>◌, pure}
use airflow_kbo.Payload.{Payload}
use airflow_kbo.Storage.Paths.{normalize_enterprise_number, normalize-IsNumber}
use airflow_kbo.Persistence.Enums.{
  SeedSource, discovered, ProcessingState, new, queued_scrape, scraping, queued_parse, parsing,
}
use airflow_kbo.Persistence.Session.{Session, RawDocument, is_known, utc_now, IsSound}
use airflow_kbo.Persistence.Repositories.{
  transition_state, upsert_enterprise, transition_all, take_claims, claim_enterprises_for_parse,
  claim_enterprises_for_scrape, select_for_scrape, normalize_all,
}
use airflow_kbo.Persistence.Repositories.Upsert.{upsert_enterprise_lem, after_upsert}
use airflow_kbo.Persistence.Repositories.Claims.{ticked-IsSound}
use airflow_kbo.Persistence.Records.{
  insert_raw_document_record, append_snapshot, record_discovery, same_document,
}
use airflow_kbo.Persistence.Records.Soundness.{
  insert_raw_document_record_lem, append_snapshot_lem, with_document-IsSound, with_snapshot-IsSound,
  record_discovery_lem, require_enterprise_unknown,
}
use airflow_kbo.Persistence.Life.{
  ◌⟶◌, claim_scrape, claim_parse, discover, Evolves, Evolves-refl, Evolves-trans,
}
use airflow_kbo.Persistence.Life.Steps.{
  Lives, Lives-bind, pure-Lives, Evolves-same, transition_state-Lives, registered-Evolves,
}

module _ ⦃u : Unicode⦄ where
  pub utc_now-Lives : Lives utc_now
  utc_now-Lives s sound = (ticked-IsSound s sound, Evolves-same s _ refl)

  after_upsert-Evolves :
      (number : String) (source : SeedSource) (initial : ProcessingState) (s : Session)
      → IsSound s
      → none ⟶ some initial
      → Evolves s (after_upsert number source initial s)
  after_upsert-Evolves number source initial s sound edge = elim (Bool-cases (is_known number s)) [
    | inl there ↦ rw there (Evolves-refl s)
    | inr unknown ↦
        rw unknown
          (registered-Evolves number source initial s edge (rw (sound.tracked number) unknown))
  ]

  pub upsert_enterprise-Lives :
      (raw : String) (source : SeedSource) (initial : ProcessingState)
      → none ⟶ some initial
      → Lives (upsert_enterprise raw source initial)
  upsert_enterprise-Lives raw source initial edge s sound =
      elim (Result-cases (normalize_enterprise_number raw)) [
        | inr (e, refused) ↦ unfold upsert_enterprise in rw refused (sound, Evolves-refl s)
        | inl (number, n) ↦
            let (e, done, named, known, sound') =
              upsert_enterprise_lem raw number source initial s sound n in
            rw done (sound', after_upsert-Evolves number source initial s sound edge)
      ]

  transition_all-Lives :
      (numbers : List String) (from_state to_state : ProcessingState) (worker_id : String)
      (until : ℕ)
      → some from_state ⟶ some to_state
      → Lives (transition_all numbers from_state to_state worker_id until)
  unfolding transition_all
  transition_all-Lives [] from_state to_state worker_id until edge = pure-Lives (ok tt)
  transition_all-Lives (number ∷ numbers) from_state to_state worker_id until edge =
      Lives-bind (transition_state number from_state to_state (some worker_id) (some until)) _
        (transition_state-Lives number from_state to_state (some worker_id) (some until) edge)
        (λ row. transition_all-Lives numbers from_state to_state worker_id until edge)

  take_claims-Lives :
      (numbers : List String) (from_state to_state : ProcessingState) (worker_id : String)
      (lock_seconds : ℕ)
      → some from_state ⟶ some to_state
      → Lives (take_claims numbers from_state to_state worker_id lock_seconds)
  unfolding take_claims
  take_claims-Lives numbers from_state to_state worker_id lock_seconds edge s sound =
      let move : ℕ → Action Session (List String) = λ now.
        transition_all numbers from_state to_state worker_id (now + lock_seconds * 1_000_000)
        >> pure numbers in
      Lives-bind utc_now move utc_now-Lives
        (λ now.
          Lives-bind
            (transition_all numbers from_state to_state worker_id (now + lock_seconds * 1_000_000))
            (λ done. pure numbers)
            (transition_all-Lives numbers from_state to_state worker_id _ edge)
            (λ done. pure-Lives (ok numbers)))
        s sound

  pub claim_enterprises_for_parse-Lives :
      (limit : ℕ) (worker_id : String) (lock_seconds : ℕ)
      → Lives (claim_enterprises_for_parse limit worker_id lock_seconds)
  unfolding claim_enterprises_for_parse
  claim_enterprises_for_parse-Lives limit worker_id lock_seconds s sound =
      take_claims-Lives _ queued_parse parsing worker_id lock_seconds claim_parse s sound

  select_for_scrape-Lives :
      (limit : ℕ) (requested : List String) → Lives (select_for_scrape limit requested)
  unfolding select_for_scrape
  select_for_scrape-Lives limit [] s sound = (sound, Evolves-refl s)
  select_for_scrape-Lives limit (x ∷ xs) s sound = elim (Result-cases (normalize_all (x ∷ xs))) [
    | inr (e, refused) ↦ rw (refused, select_for_scrape) (sound, Evolves-refl s)
    | inl (wanted, n) ↦ rw (n, select_for_scrape) (sound, Evolves-refl s)
  ]

  pub claim_enterprises_for_scrape-Lives :
      (limit : ℕ) (worker_id : String) (lock_seconds : ℕ) (requested : List String)
      → Lives (claim_enterprises_for_scrape limit worker_id lock_seconds requested)
  unfolding claim_enterprises_for_scrape
  claim_enterprises_for_scrape-Lives limit worker_id lock_seconds requested =
      Lives-bind (select_for_scrape limit requested) _ (select_for_scrape-Lives limit requested)
        (λ numbers.
          take_claims-Lives numbers queued_scrape scraping worker_id lock_seconds claim_scrape)

  pub insert_raw_document_record-Lives :
      (fields : RawDocument) → Lives (insert_raw_document_record fields)
  insert_raw_document_record-Lives fields s sound =
      elim (Result-cases (normalize_enterprise_number fields.enterprise_number)) [
        | inr (e, refused) ↦ unfold insert_raw_document_record in rw refused (sound, Evolves-refl s)
        | inl (number, n) ↦
            let same = same_document number fields.source fields.doc_type fields.run_id in
            rw (insert_raw_document_record_lem fields number s n)
              (elim (Bool-cases (is_known number s)) [
                | inr unknown ↦ rw unknown (sound, Evolves-refl s)
                | inl there ↦ rw there (elim (Option-cases (find same s.documents)) [
                  | inr (d, found) ↦ rw found (sound, Evolves-refl s)
                  | inl absent ↦ rw absent (
                    with_document-IsSound (record fields { enterprise_number = number }) s sound
                        there,
                    Evolves-same s _ refl,
                  )
                ])
              ])
      ]

  pub append_snapshot-Lives :
      (raw : String) (payload : Payload) (schema_version : ℕ)
      → Lives (append_snapshot raw payload schema_version)
  append_snapshot-Lives raw payload schema_version s sound =
      elim (Result-cases (normalize_enterprise_number raw)) [
        | inr (e, refused) ↦ unfold append_snapshot in rw refused (sound, Evolves-refl s)
        | inl (number, n) ↦ elim (Bool-cases (is_known number s)) [
          | inl there ↦
              rw (append_snapshot_lem raw number payload schema_version s n there)
                (with_snapshot-IsSound _ s sound there, Evolves-same s _ refl)
          | inr unknown ↦
              unfold append_snapshot in
              rw n (
                rw (require_enterprise_unknown number s (normalize-IsNumber raw n) unknown)
                  (sound, Evolves-refl s))
        ]
      ]

  pub record_discovery-Lives :
      (raw_source raw_number reason : String) (reason_code : Option String)
      → Lives (record_discovery raw_source raw_number reason reason_code)
  record_discovery-Lives raw_source raw_number reason reason_code s sound =
      elim (Result-cases (normalize_enterprise_number raw_source)) [
        | inr (e, refused) ↦ unfold record_discovery in rw refused (sound, Evolves-refl s)
        | inl (source, n) ↦ elim (Result-cases (normalize_enterprise_number raw_number)) [
          | inr (e, refused) ↦ unfold record_discovery in rw n (rw refused (sound, Evolves-refl s))
          | inl (number, m) ↦
              let (d, s', done, rec) =
                record_discovery_lem raw_source raw_number source number reason reason_code s sound
                  n m in
              rw done (
                rec.sound,
                Evolves-trans s (after_upsert number discovered new s) s'
                    (after_upsert-Evolves number discovered new s sound discover)
                    (Evolves-same _ _ rec.states),
              )
        ]
      ]
