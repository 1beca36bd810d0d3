-- ===== src/Extraction.antt =====
-- packages/extraction/consolidate.py: the parsed documents of an enterprise become one payload.
pub mod Consolidated
pub mod Parse
pub mod Worker
use airflow_kbo.Prelude.{
  ℕ, String, ◌≡◌, Bool, true, false, not, ◌&&◌, ◌||◌, Option, none, some, List, [], ◌∷◌, ◌==◌, any,
  keep, find, map, length, if◌then◌else◌,
}
use airflow_kbo.Text.{◌<>◌, truthy}
use airflow_kbo.Payload.{
  Value, null, text, texts, Dict, get, put, is_some, is_true, ParsedDocument, MoniteurBlock,
  OtherSource, Detail, Consolidation, Payload,
}

unfoldable pub identity_keys : List String
identity_keys =
    "enterprise_number" ∷ "legal_name" ∷ "status_label" ∷ "legal_form" ∷ "headquarters_address"
    ∷ "postal_code" ∷ "managers" ∷ "vat_activities" ∷ "financial_notes" ∷ "establishments_count"
    ∷ "entity_links" ∷ []

abbrev pub is_kbo : ParsedDocument → Bool
is_kbo d = d.source == "kbo"

abbrev pub is_primary : ParsedDocument → Bool
is_primary d = d.doc_type == "enterprise_detail"

abbrev pub is_not_profile : ParsedDocument → Bool
is_not_profile d = not (d.doc_type == "profile")

abbrev pub or_try : Option ParsedDocument → Option ParsedDocument → Option ParsedDocument
or_try none b = b
or_try (some d) b = some d

-- The first detail, or else the first that is no profile, or else the first.
unfoldable pub pick_kbo_document : List ParsedDocument → Option ParsedDocument
pick_kbo_document documents =
    let kbo = keep is_kbo documents in
    or_try (find is_primary kbo) (or_try (find is_not_profile kbo) (find (λ d. true) kbo))

unfoldable pub auxiliary_label : String → String → String
auxiliary_label source doc_type =
    if source == "bnb" && doc_type == "consult_profile"
    then "BNB — Centrale des bilans"
    else if source == "statutes" && doc_type == "publications_index"
    then "Statuts — Moniteur (index)"
    else if source == "statutes" && doc_type == "statutes_notaire_info"
    then "Statuts — notaire.be"
    else if source == "moniteur" && doc_type == "publication_search"
    then "Moniteur belge"
    else source <> " / " <> doc_type

abbrev pub is_text : String → Value → Bool
is_text s (text t) = t == s
is_text s _ = false

-- for key in keys: if fields.get(key) is not None: detail[key] = fields[key]
unfoldable pub copy_keys : List String → Dict → Dict → Dict
copy_keys [] fields detail = detail
copy_keys (key ∷ keys) fields detail =
    copy_keys keys fields
      (if is_some (get key fields) then put key (get key fields) detail else detail)

abbrev pub is_moniteur : ParsedDocument → Bool
is_moniteur d = d.source == "moniteur" && d.doc_type == "publication_search"

-- `v or []`
abbrev or_no_texts : Value → Value
or_no_texts v = if is_true v then v else texts []

unfoldable pub moniteur_block : List ParsedDocument → Option MoniteurBlock
moniteur_block documents = elim (find is_moniteur documents) [
  | none ↦ none
  | some d ↦ some (record {
    result_link_count = get "result_link_count" d.fields;
    publication_count_hint = get "publication_count_hint" d.fields;
    publications_preview = or_no_texts (get "publications_preview" d.fields);
    partial = d.partial;
  })
]

abbrev pub is_auxiliary : ParsedDocument → Bool
is_auxiliary d = not (is_kbo d) && not (is_moniteur d)

abbrev pub is_partial : ParsedDocument → Bool
is_partial d = d.partial

abbrev pub is_partial_kbo : Option ParsedDocument → Bool
is_partial_kbo none = false
is_partial_kbo (some d) = d.partial

-- `show` is Python's formatting of a value, `translate` is `translate_snapshot_fields`.
module _ (show : Value → String) (translate : Dict → Dict) where
  unfoldable pub auxiliary_summary : Dict → Bool → String
  auxiliary_summary fields partial =
      if is_text "spa_shell" (get "parse_status" fields)
      then ((if is_true (get "page_title" fields)
            then show (get "page_title" fields)
            else "Application web")
          <> " — contenu chargé côté navigateur (extraction limitée)")
      else if partial
      then "Document partiel ou sans données structurées exploitables"
      else if is_some (get "result_link_count" fields)
      then show (get "result_link_count" fields) <> " lien(s) de publication détecté(s)"
      else "Document enregistré"

  unfoldable pub other_source : ParsedDocument → OtherSource
  other_source d = record {
    source = d.source;
    doc_type = d.doc_type;
    label = auxiliary_label d.source d.doc_type;
    partial = d.partial;
    summary = auxiliary_summary d.fields d.partial;
    page_title = get "page_title" d.fields;
    content_bytes = get "content_bytes" d.fields;
  }

  abbrev pub identity_of : String → Option ParsedDocument → Dict
  identity_of number none = ("enterprise_number", text number) ∷ []
  identity_of number (some d) =
      copy_keys identity_keys (translate d.fields) (("enterprise_number", text number) ∷ [])

  abbrev pub type_of : Option ParsedDocument → Option String
  type_of none = none
  type_of (some d) = some d.doc_type

  unfoldable pub detail_of : String → List ParsedDocument → Detail
  detail_of number documents =
      let kbo = pick_kbo_document documents in
      record {
        keys = identity_of number kbo;
        moniteur = moniteur_block documents;
        other_sources = map other_source (keep is_auxiliary documents);
        registry_complete =
            is_true (get "legal_name" (identity_of number kbo)) && not (is_partial_kbo kbo);
      }

  -- `now` is what the clock shows.
  unfoldable pub consolidate_parsed_documents : ℕ → String → List ParsedDocument → Payload
  unfolding detail_of
  consolidate_parsed_documents now number documents = record {
    parsed_at = now;
    enterprise_number = number;
    enterprise_detail = some (detail_of number documents);
    documents = documents;
    consolidation = some (record {
      kbo_doc_type = type_of (pick_kbo_document documents);
      document_count = length documents;
      any_partial = any is_partial documents;
    });
  }
