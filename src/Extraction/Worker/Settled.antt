-- ===== src/Extraction/Worker/Settled.antt =====
-- packages/extraction/worker.py: every enterprise that is parsed leaves PARSING.
use airflow_kbo.Prelude.{
  ℕ, suc, String, ◌≡◌, refl, sym, ◌∙◌, ap, true, false, Option, none, some, List, [], ◌∷◌, ◌++◌,
  ◌==◌, if◌then◌else◌, arith,
}
use airflow_kbo.Text.{Unicode}
use airflow_kbo.Action.{Result, ok, pure, ◌>>◌}
use airflow_kbo.Payload.{Dict, Payload}
use airflow_kbo.Storage.Paths.{IsNumber, normalize_of_IsNumber}
use airflow_kbo.Persistence.Enums.{ProcessingState, parsing, structured, failed_parse}
use airflow_kbo.Persistence.Table.{find_key-some}
use airflow_kbo.Persistence.Session.{
  Session, StateRow, RawDocument, Snapshot, state_key, find_state, is_known, IsSound,
}
use airflow_kbo.Persistence.Repositories.{transition_state}
use airflow_kbo.Persistence.Repositories.Transition.{
  after_transition-IsSound, find-after, transition_state_lem,
}
use airflow_kbo.Persistence.Repositories.Claims.{find-after_ne, ticked-IsSound}
use airflow_kbo.Persistence.Records.Soundness.{append_snapshot_lem, with_snapshot-IsSound}
use airflow_kbo.Persistence.Life.{state_of}
use airflow_kbo.Discovery.{apply_discovery_from_parse}
use airflow_kbo.Discovery.Fanout.{apply_discovery_from_parse_lem}
use airflow_kbo.Discovery.Undisturbed.{Stays, Stays-refl, Stays-trans, apply_discovery-Undisturbed}
use airflow_kbo.Extraction.{consolidate_parsed_documents}
use airflow_kbo.Extraction.Parse.{ExtractionConfig, Parsers}
use airflow_kbo.Extraction.Worker.{
  Outcome, succeeded, failed, Gathered, gathered, documents_of, fail_parse, store_parsed,
  parse_documents, parse_enterprise,
}

abbrev pub state_after : Outcome → ProcessingState
state_after succeeded = structured
state_after (failed reason) = failed_parse

pub row_of_state :
    (o : Option StateRow) (p : ProcessingState)
    → state_of o ≡ some p
    → (r : StateRow) × (o ≡ some r) × (r.state ≡ p)
row_of_state none p h = absurd cc
row_of_state (some r) p h = (r, refl, ground arith)

-- The other enterprises: those at work keep their state.
abbrev pub OthersStay : String → Session → Session → Type 0
OthersStay number s s' =
    (k : String)
    → (number == k) ≡ false
    → Stays (state_of (find_state k s)) (state_of (find_state k s'))

module _ ⦃u : Unicode⦄ where
  -- A parse returns, and its answer is the state that it leaves.
  abbrev pub Settles : String → Session → Result Outcome × Session → Type 0
  Settles number s out =
      (o : Outcome) × (out.0 ≡ ok o)
      × IsSound out.1
      × (state_of (find_state number out.1) ≡ some (state_after o))
      × OthersStay number s out.1

  pub known_of_state :
      (number : String) (s : Session) {p : ProcessingState}
      → IsSound s
      → state_of (find_state number s) ≡ some p
      → is_known number s ≡ true
  known_of_state number s {p} sound at =
      let (r, found, here) = row_of_state (find_state number s) p at in
      sym (sound.tracked number) ∙ (find_key-some state_key number s.states r found).1

  -- The last transition.
  settle_lem :
      (number : String) (o : Outcome) (owner : Option String) (s : Session)
      → IsSound s
      → IsNumber number
      → state_of (find_state number s) ≡ some parsing
      → Settles number s ((transition_state number parsing (state_after o) owner none >> pure o) s)
  settle_lem number o owner s sound ten at =
      let (row, found, here) = row_of_state (find_state number s) parsing at in
      rw
        (transition_state_lem number number row parsing (state_after o) owner none s sound
          (normalize_of_IsNumber number ten) found here)
        (
          o,
          refl,
          after_transition-IsSound number row parsing (state_after o) owner none s sound,
          ap state_of (find-after number row parsing (state_after o) owner none s found here),
          λ k other.
              rw (find-after_ne number k row parsing (state_after o) owner none s other)
                (Stays-refl (state_of (find_state k s))),
        )

  -- The links of the parsed documents, and the last transition.
  publish_lem :
      (number : String) (candidates : List String) (owner : Option String) (s : Session)
      → IsSound s
      → IsNumber number
      → state_of (find_state number s) ≡ some parsing
      → Settles number s (
          (apply_discovery_from_parse number candidates "ENTITY_LINK"
              >> (transition_state number parsing structured owner none >> pure succeeded))
            s)
  publish_lem number candidates owner s sound ten at =
      let n = normalize_of_IsNumber number ten in
      let (ds, answer, sound', old) =
        apply_discovery_from_parse_lem number number "ENTITY_LINK" candidates s sound n in
      let s' = (apply_discovery_from_parse number candidates "ENTITY_LINK" s).1 in
      let (again, stays) = apply_discovery-Undisturbed number candidates "ENTITY_LINK" s sound in
      let at' : state_of (find_state number s') ≡ some parsing =
        (stays number).0 (rw at refl) ∙ at in
      let (o, done, sound'', ended, others) = settle_lem number succeeded owner s' sound' ten at' in
      rw answer (o, done, sound'', ended, λ k other. Stays-trans _ _ _ (stays k) (others k other))

module _ ⦃u : Unicode⦄ (read_raw_bundle : String → Result (List ℕ × Dict)) (p : Parsers)
    (translate : Dict → Dict) (cfg : ExtractionConfig) where
  fail_parse_lem :
      (number reason : String) (s : Session)
      → IsSound s
      → IsNumber number
      → state_of (find_state number s) ≡ some parsing
      → Settles number s (fail_parse read_raw_bundle p translate cfg number reason s)
  unfolding fail_parse
  fail_parse_lem number reason s sound ten at =
      settle_lem number (failed reason) (some cfg.worker_id) s sound ten at

  -- With something parsed, the enterprise ends structured: the payload is never empty, and no link
  -- makes the parse fail.
  store_parsed_lem :
      (number : String) (g : Gathered) (s : Session)
      → IsSound s
      → IsNumber number
      → state_of (find_state number s) ≡ some parsing
      → Settles number s (store_parsed read_raw_bundle p translate cfg number g s)
  unfolding store_parsed consolidate_parsed_documents
  store_parsed_lem number g s sound ten at =
      let payload : Payload =
        consolidate_parsed_documents p.show translate (s.clock s.ticks) number g.parsed in
      let t : Session = record s { ticks = suc s.ticks } in
      let row : Snapshot = record {
        enterprise_number = number;
        snapshot_at = t.clock t.ticks;
        schema_version = cfg.schema_version;
        payload = payload;
      } in
      let known = known_of_state number s sound at in
      rw
        (append_snapshot_lem number number payload cfg.schema_version t
          (normalize_of_IsNumber number ten) known)
        (publish_lem number g.candidates (some cfg.worker_id)
          (record t { ticks = suc t.ticks; snapshots = t.snapshots ++ row ∷ [] })
          (with_snapshot-IsSound row t (ticked-IsSound s sound) known) ten at)

  parse_documents_lem :
      (number : String) (docs : List RawDocument) (s : Session)
      → IsSound s
      → IsNumber number
      → state_of (find_state number s) ≡ some parsing
      → Settles number s (parse_documents read_raw_bundle p translate cfg number docs s)
  unfolding parse_documents
  parse_documents_lem number [] s sound ten at =
      fail_parse_lem number "no_raw_documents" s sound ten at
  parse_documents_lem number (doc ∷ docs) s sound ten at =
      let g = gathered read_raw_bundle p translate cfg number (doc ∷ docs) in
      elim g.any_ok
        as (λ b. Settles number s (
          (if b
              then store_parsed read_raw_bundle p translate cfg number g
              else fail_parse read_raw_bundle p translate cfg number "all_documents_failed")
            s)) [
              | true ↦ store_parsed_lem number g s sound ten at
              | false ↦ fail_parse_lem number "all_documents_failed" s sound ten at
            ]

  -- On a sound database, whatever was stored of an enterprise and however its pages parse, a parse
  -- of an enterprise in PARSING returns without an exception: the enterprise ends STRUCTURED when it
  -- answers success and FAILED_PARSE when it answers failure, the database stays sound, and of the
  -- other enterprises those that are queued, at work or structured keep their state.
  pub parse_enterprise_lem :
      (number : String) (s : Session)
      → IsSound s
      → IsNumber number
      → state_of (find_state number s) ≡ some parsing
      → Settles number s (parse_enterprise read_raw_bundle p translate cfg number s)
  unfolding parse_enterprise
  parse_enterprise_lem number s sound ten at =
      parse_documents_lem number (documents_of number s) s sound ten at
