-- ===== src/Program.antt =====
-- The program as a whole: the operations that its DAGs and commands run on the one database, in any
-- order, and the life of the enterprises under them.
use airflow_kbo.Prelude.{
  ℕ, String, ◌≡◌, refl, Bool, true, some, List, [], ◌∷◌, ltb, Bool-cases, inl, inr, arith,
}
use airflow_kbo.Text.{Unicode}
use airflow_kbo.Action.{Result}
use airflow_kbo.Payload.{Dict}
use airflow_kbo.Persistence.Enums.{structured}
use airflow_kbo.Persistence.Session.{Session, RawDocument, find_state, IsSound}
use airflow_kbo.Persistence.Repositories.{claim_enterprises_for_scrape}
use airflow_kbo.Persistence.Records.{insert_raw_document_record}
use airflow_kbo.Persistence.Life.{
  ◌⟶*◌, state_of, is_used, ⟶*-used, ⟶*-structured, Evolves, Evolves-refl, Evolves-trans,
}
use airflow_kbo.Persistence.Life.Steps.{Evolves-same}
use airflow_kbo.Persistence.Life.Writes.{
  claim_enterprises_for_scrape-Lives, insert_raw_document_record-Lives,
}
use airflow_kbo.Discovery.{fanout_from_recent_snapshots}
use airflow_kbo.Discovery.Life.{fanout_from_recent_snapshots-Lives}
use airflow_kbo.Acquisition.Worker.{Outside, SourceAdapter}
use airflow_kbo.Acquisition.Finalize.{finalize_scrape_for_enterprises}
use airflow_kbo.Acquisition.Finalize.Life.{finalize_scrape_for_enterprises-Lives}
use airflow_kbo.Acquisition.Batch.{Site, scrape_batch}
use airflow_kbo.Acquisition.Batch.Life.{scrape_batch-Lives}
use airflow_kbo.Extraction.Parse.{ExtractionConfig, Parsers}
use airflow_kbo.Extraction.Worker.{parse_batch}
use airflow_kbo.Extraction.Worker.Life.{parse_batch-Lives}
use airflow_kbo.Ingestion.{ingest_csv}
use airflow_kbo.Ingestion.Counts.{ingest_csv_lem}
use airflow_kbo.Lifecycle.Scheduler.{lifecycle_tick}
use airflow_kbo.Lifecycle.Life.{lifecycle_tick-Lives}

-- What is run: `claim` and `finalize` are the two ends of a scrape by source, `store` is the listener
-- on the raw store, `hold` is another transaction that locks rows, or lets them go.
pub data Operation : Type 0 where
  ingest : Bool → ℕ → List (ℕ × String) → Operation
  scrape : ℕ → List String → Operation
  claim : ℕ → String → List String → Operation
  store : RawDocument → Operation
  finalize : List String → String → List String → Operation
  parse : ℕ → Operation
  fanout : ℕ → ℕ → Operation
  tick : ℕ → ℕ → Operation
  hold : List String → Operation

-- The settings and the code that is not modelled.
pub record Environment (S : Type 0) : Type 0 where
  pub outside : Outside S
  pub max_retries : ℕ
  pub worker_id : String
  pub adapters : List SourceAdapter
  pub read_raw_bundle : String → Result (List ℕ × Dict)
  pub parsers : Parsers
  pub translate : Dict → Dict
  pub extraction : ExtractionConfig

module _ ⦃u : Unicode⦄ {S : Type 0} (env : Environment S) where
  -- What an operation makes of the sites and the database.
  pub run : Operation → Site S → Site S
  run (ingest postgresql batch_size lines) site = record site {
    session = (ingest_csv postgresql batch_size lines site.session).1;
  }
  run (scrape limit requested) site =
      (scrape_batch env.outside env.max_retries env.worker_id limit requested env.adapters site).1
  run (claim limit worker_id requested) site = record site {
    session = (claim_enterprises_for_scrape limit worker_id 300 requested site.session).1;
  }
  run (store document) site = record site {
    session = (insert_raw_document_record document site.session).1;
  }
  run (finalize sources worker_id numbers) site = record site {
    session = (finalize_scrape_for_enterprises sources worker_id numbers site.session).1;
  }
  run (parse limit) site = record site {
    session =
        (parse_batch env.read_raw_bundle env.parsers env.translate env.extraction limit
          site.session).1;
  }
  run (fanout hours limit) site = record site {
    session = (fanout_from_recent_snapshots hours limit site.session).1;
  }
  run (tick max_age_days limit) site = record site {
    session = (lifecycle_tick max_age_days limit site.session).1;
  }
  run (hold numbers) site = record site { session = record site.session { locked = numbers } }

  pub run_all : List Operation → Site S → Site S
  unfolding run
  run_all [] site = site
  run_all (op ∷ ops) site = run_all ops (run op site)

  abbrev pub Follows : Site S → Site S → Type 0
  Follows before after = IsSound after.session × Evolves before.session after.session

  ingest-Follows :
      (postgresql : Bool) (batch_size : ℕ) (lines : List (ℕ × String)) (s : Session)
      → IsSound s
      → let s' = (ingest_csv postgresql batch_size lines s).1 in IsSound s' × Evolves s s'
  ingest-Follows postgresql batch_size lines s sound = elim (Bool-cases (ltb batch_size 1)) [
    | inl small ↦ unfold ingest_csv in rw small (sound, Evolves-refl s)
    | inr large ↦
        let (r, s', done, all_read, counted, quarantined, grown, sound', life) =
          ingest_csv_lem postgresql batch_size lines s sound (ground arith) in
        rw done (sound', life)
  ]

  run-Follows : (op : Operation) (site : Site S) → IsSound site.session → Follows site (run op site)
  unfolding run
  run-Follows (ingest postgresql batch_size lines) site sound =
      ingest-Follows postgresql batch_size lines site.session sound
  run-Follows (scrape limit requested) site sound =
      scrape_batch-Lives env.outside env.max_retries env.worker_id limit requested env.adapters site
        sound
  run-Follows (claim limit worker_id requested) site sound =
      claim_enterprises_for_scrape-Lives limit worker_id 300 requested site.session sound
  run-Follows (store document) site sound =
      insert_raw_document_record-Lives document site.session sound
  run-Follows (finalize sources worker_id numbers) site sound =
      finalize_scrape_for_enterprises-Lives sources worker_id numbers site.session sound
  run-Follows (parse limit) site sound =
      parse_batch-Lives env.read_raw_bundle env.parsers env.translate env.extraction limit
        site.session sound
  run-Follows (fanout hours limit) site sound =
      fanout_from_recent_snapshots-Lives hours limit site.session sound
  run-Follows (tick max_age_days limit) site sound =
      lifecycle_tick-Lives max_age_days limit site.session sound
  run-Follows (hold numbers) site sound = (
    record {
      unique_enterprises = sound.unique_enterprises;
      unique_states = sound.unique_states;
      tracked = sound.tracked;
      numbers = sound.numbers;
      documents_known = sound.documents_known;
      snapshots_known = sound.snapshots_known;
      discoveries_known = sound.discoveries_known;
      history_known = sound.history_known;
    },
    Evolves-same site.session _ refl,
  )

  -- The program refines the graph of the processing states: from a sound database, whatever operations
  -- run, in whatever order and with whatever arguments, the database stays sound and every enterprise
  -- goes from its state to its later state by steps of the graph.
  pub run_all-Follows :
      (ops : List Operation) (site : Site S)
      → IsSound site.session
      → Follows site (run_all ops site)
  unfolding run_all
  run_all-Follows [] site sound = (sound, Evolves-refl site.session)
  run_all-Follows (op ∷ ops) site sound =
      let (sound', life) = run-Follows op site sound in
      let (sound'', rest) = run_all-Follows ops (run op site) sound' in
      (sound'', Evolves-trans site.session (run op site).session _ life rest)

  -- An enterprise that is not registered, or is in a state in use, never comes to RAW_STORED or
  -- FAILED_VALIDATE, whatever operations run; and from the state it has after them there is still a
  -- way along the graph to STRUCTURED.
  pub run_all-used :
      (ops : List Operation) (site : Site S) (number : String)
      → IsSound site.session
      → is_used (state_of (find_state number site.session)) ≡ true
      → let after = state_of (find_state number (run_all ops site).session) in
        (is_used after ≡ true) × (after ⟶* some structured)
  unfolding Evolves
  run_all-used ops site number sound used =
      let path = (run_all-Follows ops site sound).1 number in
      let still = ⟶*-used path used in (still, ⟶*-structured _ still)
