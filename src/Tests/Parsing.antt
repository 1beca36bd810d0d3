-- ===== src/Tests/Parsing.antt =====
-- The theorems on consolidation, at two sample documents.
use airflow_kbo.Prelude.{
  ◌≡◌, refl, true, false, ◌&&◌, none, some, List, [], ◌∷◌, ◌==◌, any, if◌then◌else◌,
}
use airflow_kbo.Payload.{text, get, is_some, ParsedDocument}
use airflow_kbo.Extraction.{identity_keys, is_kbo, is_primary, pick_kbo_document, detail_of}
use airflow_kbo.Extraction.Consolidated.{pick_kbo_document_lem, detail_of_lem}

abbrev profile : ParsedDocument
profile = record {
  source = "kbo";
  doc_type = "profile";
  run_id = "r1";
  extractor_version = "1.0.0";
  schema_version = 1;
  partial = false;
  fields = [];
}

abbrev detail : ParsedDocument
detail = record {
  source = "kbo";
  doc_type = "enterprise_detail";
  run_id = "r2";
  extractor_version = "1.0.0";
  schema_version = 1;
  partial = false;
  fields = ("legal_name", text "ACME") ∷ [];
}

abbrev documents : List ParsedDocument
documents = profile ∷ detail ∷ []

picked : pick_kbo_document documents ≡ some detail
unfolding pick_kbo_document
picked = refl

pick_kbo_document_example :
    ((pick_kbo_document (profile ∷ detail ∷ []) ≡ none) → any is_kbo documents ≡ false)
    × ((d : ParsedDocument)
        → pick_kbo_document documents ≡ some d
        → (is_kbo d ≡ true)
          × (any (λ x. is_kbo x && is_primary x) documents ≡ true → is_primary d ≡ true))
pick_kbo_document_example = pick_kbo_document_lem documents

detail_of_example :
    get "legal_name" (detail_of (λ v. "?") (λ fields. fields) "0878065378" documents).keys ≡ (
      if any (λ k. k == "legal_name") identity_keys && is_some (get "legal_name" detail.fields)
      then get "legal_name" detail.fields
      else get "legal_name" (("enterprise_number", text "0878065378") ∷ []))
detail_of_example =
    detail_of_lem (λ v. "?") (λ fields. fields) "0878065378" documents detail "legal_name" picked
