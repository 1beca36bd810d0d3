-- ===== src/Persistence/Records/Soundness.antt =====
-- The insertions of packages/persistence/repositories.py: idempotence, and a sound database after
-- each.
use airflow_kbo.Prelude.{
  ℕ, suc, String, ◌≡◌, refl, sym, ◌∙◌, ap, true, false, Option, none, some, [], ◌∷◌, ◌++◌, arith,
  eq_iff, if◌then◌else◌, All-append, Bool-cases, Option-cases, inl, inr, find, find-append_self,
}
use airflow_kbo.Text.{Unicode}
use airflow_kbo.Action.{ok, err, enterprise_not_found}
use airflow_kbo.Payload.{Payload}
use airflow_kbo.Storage.Paths.{
  normalize_enterprise_number, IsNumber, normalize-IsNumber, normalize_of_IsNumber,
}
use airflow_kbo.Persistence.Enums.{discovered, new}
use airflow_kbo.Persistence.Table.{has_key, find_key, find_key-some, find_key_of_has_key}
use airflow_kbo.Persistence.Session.{
  Session, Enterprise, RawDocument, Snapshot, Discovery, enterprise_key, find_enterprise, is_known,
  IsSound,
}
use airflow_kbo.Persistence.Repositories.{require_enterprise}
use airflow_kbo.Persistence.Repositories.Upsert.{upsert_enterprise_lem, after_upsert}
use airflow_kbo.Persistence.Records.{
  same_document, same_pair, insert_document, insert_snapshot, insert_discovery,
  insert_raw_document_record, append_snapshot, store_discovery, record_discovery,
}

module _ ⦃u : Unicode⦄ where
  pub require_enterprise_known :
      (number : String) (s : Session)
      → IsNumber number
      → is_known number s ≡ true
      → (e : Enterprise) × (require_enterprise number s ≡ (ok e, s))
  unfolding require_enterprise find_key
  require_enterprise_known number s ten there =
      let (e, found) = find_key_of_has_key enterprise_key number s.enterprises there in
      (e, rw (normalize_of_IsNumber number ten) (rw found))

  pub require_enterprise_unknown :
      (number : String) (s : Session)
      → IsNumber number
      → is_known number s ≡ false
      → require_enterprise number s ≡ (err enterprise_not_found, s)
  unfolding require_enterprise find_key
  require_enterprise_unknown number s ten absent = elim (Option-cases (find_enterprise number s)) [
    | inl e ↦ rw (normalize_of_IsNumber number ten) (rw e)
    | inr (e, found) ↦
        let there = find_key-some enterprise_key number s.enterprises e found in absurd (cc)
  ]

  pub with_document-IsSound :
      (d : RawDocument) (s : Session)
      → IsSound s
      → is_known d.enterprise_number s ≡ true
      → IsSound (record s { documents = s.documents ++ d ∷ [] })
  with_document-IsSound d s sound there = record {
    unique_enterprises = sound.unique_enterprises;
    unique_states = sound.unique_states;
    tracked = sound.tracked;
    numbers = sound.numbers;
    documents_known =
        All-append (λ x. is_known x.enterprise_number s ≡ true) s.documents _ sound.documents_known
          (there, tt);
    snapshots_known = sound.snapshots_known;
    discoveries_known = sound.discoveries_known;
    history_known = sound.history_known;
  }

  pub insert_raw_document_record_lem :
      (fields : RawDocument) (number : String) (s : Session)
      → normalize_enterprise_number fields.enterprise_number ≡ ok number
      → insert_raw_document_record fields s ≡ (
          if is_known number s
          then (elim (find
              (same_document number fields.source fields.doc_type fields.run_id)
              s.documents) [
                | some existing ↦ (ok existing, s)
                | none ↦ (
                  ok (record fields { enterprise_number = number }),
                  record s {
                    documents = s.documents ++ record fields { enterprise_number = number } ∷ [];
                  },
                )
              ])
          else (err enterprise_not_found, s))
  unfolding insert_raw_document_record insert_document
  insert_raw_document_record_lem fields number s n =
      let ten = normalize-IsNumber fields.enterprise_number n in
      elim (Bool-cases (is_known number s)) [
        | inr absent ↦ rw n (rw absent (rw (require_enterprise_unknown number s ten absent)))
        | inl there ↦
            let (e, found) = require_enterprise_known number s ten there in
            rw n (rw found (rw there (ground arith)))
      ]

  -- Registering the same document again answers the row of the first time and writes nothing.
  pub insert_raw_document_record_idem :
      (fields : RawDocument) (number : String) (s : Session)
      → normalize_enterprise_number fields.enterprise_number ≡ ok number
      → is_known number s ≡ true
      → insert_raw_document_record fields (insert_raw_document_record fields s).1
        ≡ insert_raw_document_record fields s
  insert_raw_document_record_idem fields number s n there =
      let row : RawDocument = record fields { enterprise_number = number } in
      let p = same_document number fields.source fields.doc_type fields.run_id in
      elim (Option-cases (find p s.documents)) [
        | inl absent ↦
            let s' : Session = record s { documents = s.documents ++ row ∷ [] } in
            let first : insert_raw_document_record fields s ≡ (ok row, s') =
              insert_raw_document_record_lem fields number s n ∙ rw there (rw absent) in
            let again : find p s'.documents ≡ some row = find-append_self p s.documents row absent (
              ground (
                arith,
                eq_iff number number,
                eq_iff fields.source fields.source,
                eq_iff fields.doc_type fields.doc_type,
                eq_iff fields.run_id fields.run_id,
              )) in
            let second : insert_raw_document_record fields s' ≡ (ok row, s') =
              insert_raw_document_record_lem fields number s' n ∙ rw there (rw again) in
            ap (λ x. insert_raw_document_record fields x.1) first ∙ second ∙ sym first
        | inr (d, found) ↦
            let first : insert_raw_document_record fields s ≡ (ok d, s) =
              insert_raw_document_record_lem fields number s n ∙ rw there (rw found) in
            ap (λ x. insert_raw_document_record fields x.1) first
      ]

  -- A snapshot is appended for a registered enterprise; the snapshots there stay as they are.
  pub append_snapshot_lem :
      (raw number : String) (payload : Payload) (schema_version : ℕ) (s : Session)
      → normalize_enterprise_number raw ≡ ok number
      → is_known number s ≡ true
      → let row : Snapshot = record {
        enterprise_number = number;
        snapshot_at = s.clock s.ticks;
        schema_version = schema_version;
        payload = payload;
      } in
        append_snapshot raw payload schema_version s
        ≡ (ok row, record s { ticks = suc s.ticks; snapshots = s.snapshots ++ row ∷ [] })
  unfolding append_snapshot insert_snapshot
  append_snapshot_lem raw number payload schema_version s n there =
      let (e, found) = require_enterprise_known number s (normalize-IsNumber raw n) there in
      rw n (rw found (rw there))

  pub with_snapshot-IsSound :
      (d : Snapshot) (s : Session)
      → IsSound s
      → is_known d.enterprise_number s ≡ true
      → IsSound (record s { ticks = suc s.ticks; snapshots = s.snapshots ++ d ∷ [] })
  with_snapshot-IsSound d s sound there = record {
    unique_enterprises = sound.unique_enterprises;
    unique_states = sound.unique_states;
    tracked = sound.tracked;
    numbers = sound.numbers;
    documents_known = sound.documents_known;
    snapshots_known =
        All-append (λ x. is_known x.enterprise_number s ≡ true) s.snapshots _ sound.snapshots_known
          (there, tt);
    discoveries_known = sound.discoveries_known;
    history_known = sound.history_known;
  }

  with_discovery-IsSound :
      (d : Discovery) (s : Session)
      → IsSound s
      → is_known d.discovered_enterprise_number s ≡ true
      → IsSound (record s { ticks = suc s.ticks; discoveries = s.discoveries ++ d ∷ [] })
  with_discovery-IsSound d s sound there = record {
    unique_enterprises = sound.unique_enterprises;
    unique_states = sound.unique_states;
    tracked = sound.tracked;
    numbers = sound.numbers;
    documents_known = sound.documents_known;
    snapshots_known = sound.snapshots_known;
    discoveries_known =
        All-append (λ x. is_known x.discovered_enterprise_number s ≡ true) s.discoveries _
          sound.discoveries_known (there, tt);
    history_known = sound.history_known;
  }

  after_upsert-documents :
      (number : String) (s : Session)
      → (after_upsert number discovered new s).documents ≡ s.documents
  after_upsert-documents number s = ground arith

  after_upsert-snapshots :
      (number : String) (s : Session)
      → (after_upsert number discovered new s).snapshots ≡ s.snapshots
  after_upsert-snapshots number s = ground arith

  -- What a recorded discovery leaves: an answer, a sound database, the discovered enterprise
  -- registered, and the processing states of an upsert.
  pub record Recorded (source number : String) (s s' : Session) : Type 0 where
    pub sound : IsSound s'
    pub known : is_known number s' ≡ true
    pub states : s'.states ≡ (after_upsert number discovered new s).states
    pub enterprises : s'.enterprises ≡ (after_upsert number discovered new s).enterprises
    pub listed : (d : Discovery) × (find (same_pair source number) s'.discoveries ≡ some d)
    pub documents : s'.documents ≡ s.documents
    pub snapshots : s'.snapshots ≡ s.snapshots

  -- The stored pair, or a new one: the answer and the session after it.
  store_discovery_lem :
      (source number reason : String) (reason_code : Option String) (s : Session)
      → IsSound s
      → is_known number s ≡ true
      → (d : Discovery) × (s' : Session) × (store_discovery source number reason reason_code s
          ≡ (ok d, s'))
        × IsSound s'
        × (find (same_pair source number) s'.discoveries ≡ some d)
        × (s'.states ≡ s.states)
        × (s'.enterprises ≡ s.enterprises)
        × (s'.documents ≡ s.documents)
        × (s'.snapshots ≡ s.snapshots)
  unfolding store_discovery insert_discovery
  store_discovery_lem source number reason reason_code s sound known =
      elim (Option-cases (find (same_pair source number) s.discoveries)) [
        | inr (d, found) ↦ (d, s, rw (found, store_discovery), sound, found, refl, refl, refl, refl)
        | inl absent ↦
            let d : Discovery = record {
              source_enterprise_number = source;
              discovered_enterprise_number = number;
              reason = reason;
              reason_code = reason_code;
              discovered_at = s.clock s.ticks;
            } in
            (
              d,
              record s { ticks = suc s.ticks; discoveries = s.discoveries ++ d ∷ [] },
              rw (absent, store_discovery) (rw known),
              with_discovery-IsSound d s sound known,
              find-append_self (same_pair source number) s.discoveries d absent
                  (ground (arith, eq_iff source source, eq_iff number number)),
              refl,
              refl,
              refl,
              refl,
            )
      ]

  pub record_discovery_lem :
      (raw_source raw_number source number : String) (reason : String) (reason_code : Option String)
      (s : Session)
      → IsSound s
      → normalize_enterprise_number raw_source ≡ ok source
      → normalize_enterprise_number raw_number ≡ ok number
      → (d : Discovery) × (s' : Session) × (record_discovery raw_source raw_number reason
            reason_code s
          ≡ (ok d, s'))
        × Recorded source number s s'
  unfolding record_discovery
  record_discovery_lem raw_source raw_number source number reason reason_code s sound n m =
      let ten = normalize-IsNumber raw_number m in
      let (e, upserted, named, known, sound1) =
        upsert_enterprise_lem number number discovered new s sound
          (normalize_of_IsNumber number ten) in
      let (
        d, s', stored, sound2, found, same_states, same_enterprises, same_documents, same_snapshots,
      ) =
        store_discovery_lem source number reason reason_code (after_upsert number discovered new s)
          sound1 known in
      (
        d,
        s',
        rw n (rw m (rw upserted stored)),
        record {
          sound = sound2;
          known = ap (has_key enterprise_key number) same_enterprises ∙ known;
          states = same_states;
          enterprises = same_enterprises;
          listed = (d, found);
          documents = same_documents ∙ after_upsert-documents number s;
          snapshots = same_snapshots ∙ after_upsert-snapshots number s;
        },
      )
