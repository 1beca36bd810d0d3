-- ===== src/Extraction/Parse.antt =====
-- packages/extraction/parse.py and models.py: one raw document with its sidecar becomes the fields
-- of a parsed document. The parsers of the three page kinds are parameters.
use airflow_kbo.Prelude.{
  ℕ, String, Bool, true, false, ◌&&◌, ◌||◌, Option, none, some, List, [], ◌∷◌, ◌==◌, if◌then◌else◌,
}
use airflow_kbo.Text.{truthy}
use airflow_kbo.Action.{Result, ok, err}
use airflow_kbo.Payload.{Value, text, Dict, get, is_true, get_or}

-- The settings that a parse reads.
pub record ExtractionConfig : Type 0 where
  pub worker_id : String
  pub extractor_version : String
  pub schema_version : ℕ

-- `ParsedDocument` of models.py.
pub record Extracted : Type 0 where
  pub enterprise_number : Value
  pub source : String
  pub doc_type : String
  pub extractor_version : String
  pub schema_version : ℕ
  pub partial : Bool
  pub fields : Dict
  pub discovery_candidates : List String

pub record ParseResult : Type 0 where
  pub is_ok : Bool
  pub reason_code : String
  pub document : Option Extracted

-- What a parser answers: the fields, the numbers that the page links to, whether it is partial.
abbrev pub Fields : Type 0
Fields = Dict × List String × Bool

-- The parsers: of KBO pages, of Moniteur result lists, of any other page; and Python's `str` of a
-- value of the sidecar.
pub record Parsers : Type 0 where
  pub kbo : List ℕ → String → String → ℕ → Result Fields
  pub moniteur : List ℕ → String → String → Result Fields
  pub generic : List ℕ → String → String → String → Result Fields
  pub show : Value → String

abbrev pub not_parsed_because : String → ParseResult
not_parsed_because reason = record { is_ok = false; reason_code = reason; document = none }

module _ (p : Parsers) (cfg : ExtractionConfig) where
  -- The parser by the source and the kind of the page.
  unfoldable pub parse_fields : String → String → String → List ℕ → Result Fields
  parse_fields source doc_type number content =
      if source == "kbo" && (doc_type == "enterprise_detail" || doc_type == "profile")
      then p.kbo content number cfg.extractor_version cfg.schema_version
      else if source == "moniteur" && doc_type == "publication_search"
      then p.moniteur content number doc_type
      else p.generic content number source doc_type

  -- Any exception of a parser is a failed parse, and so are empty fields.
  unfoldable pub result_of : String → String → String → Result Fields → ParseResult
  result_of source doc_type number (err e) = not_parsed_because "parse_exception"
  result_of source doc_type number (ok ([], candidates, partial)) =
      not_parsed_because "empty_fields"
  result_of source doc_type number (ok (f ∷ fields, candidates, partial)) = record {
    is_ok = true;
    reason_code = "ok";
    document = some (record {
      enterprise_number = get_or "enterprise_number" (text number) (f ∷ fields);
      source = source;
      doc_type = doc_type;
      extractor_version = cfg.extractor_version;
      schema_version = cfg.schema_version;
      partial = partial;
      fields = f ∷ fields;
      discovery_candidates = candidates;
    });
  }

  -- str(metadata.get("enterprise_number") or metadata.get("ondernemingsnummer", ""))
  unfoldable pub number_of : Dict → String
  number_of metadata = p.show (
      if is_true (get "enterprise_number" metadata)
      then get "enterprise_number" metadata
      else get_or "ondernemingsnummer" (text "") metadata)

  unfoldable pub parse_raw_document : List ℕ → Dict → ParseResult
  unfolding parse_fields result_of number_of
  parse_raw_document content metadata =
      let source = p.show (get_or "source" (text "unknown") metadata) in
      let doc_type = p.show (get_or "doc_type" (text "unknown") metadata) in
      let number = number_of metadata in
      if truthy number
      then result_of source doc_type number (parse_fields source doc_type number content)
      else not_parsed_because "missing_enterprise_number"
