-- ===== src/Extraction/Worker.antt =====
-- packages/extraction/worker.py: enterprises go from QUEUED_PARSE over PARSING to STRUCTURED.
pub mod Settled
pub mod Batch
pub mod Life
use airflow_kbo.Prelude.{
  ℕ, zero, suc, ◌+◌, String, ◌≡◌, Bool, true, false, ◌&&◌, ◌||◌, not, Option, none, some, List, [],
  ◌∷◌, ◌++◌, ◌==◌, if◌then◌else◌, any, keep, leb, length,
}
use airflow_kbo.Text.{Unicode}
use airflow_kbo.Action.{Action, Result, ok, err, pure, ◌>>=◌, ◌>>◌}
use airflow_kbo.Payload.{Value, text, Dict, put, set_default, ParsedDocument, Payload}
use airflow_kbo.Persistence.Enums.{ProcessingState, parsing, structured, failed_parse}
use airflow_kbo.Persistence.Session.{Session, StateRow, RawDocument, utc_now}
use airflow_kbo.Persistence.Repositories.{transition_state, claim_enterprises_for_parse}
use airflow_kbo.Persistence.Records.{append_snapshot}
use airflow_kbo.Discovery.{EnqueueDecision, apply_discovery_from_parse}
use airflow_kbo.Extraction.{consolidate_parsed_documents}
use airflow_kbo.Extraction.Parse.{
  ExtractionConfig, Extracted, ParseResult, Parsers, parse_raw_document,
}

-- ORDER BY scraped_at DESC
unfoldable pub insert_latest : RawDocument → List RawDocument → List RawDocument
insert_latest d [] = d ∷ []
insert_latest d (x ∷ docs) =
    if leb x.scraped_at d.scraped_at then d ∷ x ∷ docs else x ∷ insert_latest d docs

unfoldable pub latest_first : List RawDocument → List RawDocument
unfolding insert_latest
latest_first [] = []
latest_first (d ∷ docs) = insert_latest d (latest_first docs)

unfoldable pub documents_of : String → Session → List RawDocument
unfolding latest_first
documents_of number s =
    latest_first (keep (λ (d : RawDocument). d.enterprise_number == number) s.documents)

abbrev pub is_detail_page : RawDocument → Bool
is_detail_page d = d.source == "kbo" && d.doc_type == "enterprise_detail"

abbrev pub is_profile_page : RawDocument → Bool
is_profile_page d = d.source == "kbo" && d.doc_type == "profile"

-- (doc.source, doc.doc_type) in seen_keys
abbrev pub is_seen : RawDocument → List (String × String) → Bool
is_seen d seen = any (λ (k : String × String). k.0 == d.source && k.1 == d.doc_type) seen

-- `any_ok`, `parsed_payloads` and `all_candidates`.
pub record Gathered : Type 0 where
  pub any_ok : Bool
  pub parsed : List ParsedDocument
  pub candidates : List String

-- The answer of `_parse_enterprise`, with the reason that `record_parse_failure` is given.
pub data Outcome : Type 0 where
  succeeded : Outcome
  failed : String → Outcome

pub record ParseBatchReport : Type 0 where
  pub claimed : ℕ
  pub succeeded : ℕ
  pub failed : ℕ
  pub enterprises : List String

-- `if not d.get("enterprise_detail") and not d.get("documents")`
abbrev pub is_empty_payload : Payload → Bool
is_empty_payload p =
    elim p.enterprise_detail [ none ↦ true | some detail ↦ false ]
    && elim p.documents [ [] ↦ true | d ∷ ds ↦ false ]

-- session.rollback(): the tables as they were, at a later reading of the clock.
abbrev pub rollback : Session → Session → Session
rollback before after = record before { ticks = after.ticks }

abbrev pub count_outcome : String → Result Outcome → ParseBatchReport → ParseBatchReport
count_outcome number (ok succeeded) r = record r {
  succeeded = suc r.succeeded;
  enterprises = r.enterprises ++ number ∷ [];
}
count_outcome number (ok (failed reason)) r = record r {
  failed = suc r.failed;
  enterprises = r.enterprises ++ number ∷ [];
}
count_outcome number (err e) r = record r {
  failed = suc r.failed;
  enterprises = r.enterprises ++ number ∷ [];
}

-- Commit, or rollback after an exception.
abbrev pub close : {A : Type 0} → Session → Result A × Session → Session
close before (ok a, after) = after
close before (err e, after) = rollback before after

-- `read_raw_bundle` is that of packages/storage; `show` and `translate` are those of the
-- consolidation.
module _ ⦃u : Unicode⦄ (read_raw_bundle : String → Result (List ℕ × Dict)) (p : Parsers)
    (translate : Dict → Dict) (cfg : ExtractionConfig) where
  -- The body of the `try`: `none` where it raises or continues.
  unfoldable pub parse_one : String → RawDocument → Option Extracted
  unfolding parse_raw_document
  parse_one number doc = elim (read_raw_bundle doc.hdfs_dir) [
    | err e ↦ none
    | ok (content, sidecar) ↦
        let meta = set_default "doc_type" (text doc.doc_type) (
          set_default "source" (text doc.source) (put "enterprise_number" (text number) sidecar)) in
        let result = parse_raw_document p cfg content meta in
        if result.is_ok then result.document else none
  ]

  abbrev pub add_parsed : RawDocument → Option Extracted → Gathered → Gathered
  add_parsed doc none g = g
  add_parsed doc (some x) g = record {
    any_ok = true;
    parsed =
        g.parsed
        ++ record {
          source = doc.source;
          doc_type = doc.doc_type;
          run_id = doc.run_id;
          extractor_version = x.extractor_version;
          schema_version = x.schema_version;
          partial = x.partial;
          fields = x.fields;
        }
          ∷ [];
    candidates = g.candidates ++ x.discovery_candidates;
  }

  abbrev pub is_passed_over : Bool → List (String × String) → RawDocument → Bool
  is_passed_over has_kbo_detail seen doc =
      is_seen doc seen || (has_kbo_detail && is_profile_page doc)

  -- The `for` loop over the documents, newest first.
  unfoldable pub gather :
      String → Bool → List (String × String) → List RawDocument → Gathered → Gathered
  unfolding parse_one
  gather number has_kbo_detail seen [] g = g
  gather number has_kbo_detail seen (doc ∷ docs) g =
      let skip = is_passed_over has_kbo_detail seen doc in
      gather number has_kbo_detail (if skip then seen else (doc.source, doc.doc_type) ∷ seen) docs
        (if skip then g else add_parsed doc (parse_one number doc) g)

  unfoldable pub fail_parse : String → String → Action Session Outcome
  fail_parse number reason =
      transition_state number parsing failed_parse (some cfg.worker_id) none >> pure (failed reason)

  -- From the consolidation on.
  unfoldable pub store_parsed : String → Gathered → Action Session Outcome
  store_parsed number g = do
    now ← utc_now
    let payload = consolidate_parsed_documents p.show translate now number g.parsed
    append_snapshot number payload cfg.schema_version
    if is_empty_payload payload then fail_parse number "empty_snapshot_payload" else (do
      apply_discovery_from_parse number g.candidates "ENTITY_LINK"
      transition_state number parsing structured (some cfg.worker_id) none
      pure succeeded)

  abbrev pub gathered : String → List RawDocument → Gathered
  gathered number docs =
      gather number (any is_detail_page docs) [] docs
        (record { any_ok = false; parsed = []; candidates = [] })

  unfoldable pub parse_documents : String → List RawDocument → Action Session Outcome
  parse_documents number [] = fail_parse number "no_raw_documents"
  parse_documents number (doc ∷ docs) =
      if (gathered number (doc ∷ docs)).any_ok
      then store_parsed number (gathered number (doc ∷ docs))
      else fail_parse number "all_documents_failed"

  unfoldable pub parse_enterprise : String → Action Session Outcome
  unfolding documents_of parse_documents
  parse_enterprise number s = parse_documents number (documents_of number s) s

  -- The `for` loop over the claimed numbers, a transaction for each.
  unfoldable pub parse_all : List String → ParseBatchReport → Session → ParseBatchReport × Session
  parse_all [] report s = (report, s)
  parse_all (number ∷ numbers) report s =
      let out = parse_enterprise number s in
      parse_all numbers (count_outcome number out.0 report) (close s out)

  abbrev pub parse_claimed :
      Session → Result (List String) × Session → Result ParseBatchReport × Session
  parse_claimed before (err e, after) = (err e, rollback before after)
  parse_claimed before (ok claimed, after) =
      let start : ParseBatchReport = record {
        claimed = length claimed;
        succeeded = 0;
        failed = 0;
        enterprises = [];
      } in
      let (report, s) = parse_all claimed start after in (ok report, s)

  -- The claim is committed first; `lock_seconds` has its default.
  unfoldable pub parse_batch : ℕ → Action Session ParseBatchReport
  unfolding parse_all
  parse_batch limit s = parse_claimed s (claim_enterprises_for_parse limit cfg.worker_id 300 s)
