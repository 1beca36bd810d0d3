-- ===== src/Storage/Validation.antt =====
-- packages/storage/validation.py: the checks at the border of the store.
use airflow_kbo.Prelude.{
  ℕ, ◌≤◌, String, ◌≡◌, Bool, true, false, not, ◌&&◌, Option, none, some, List, [], ◌∷◌, ◌==◌, any,
  length, leb, ltb, if◌then◌else◌,
}
use airflow_kbo.Text.{Unicode, truthy}
use airflow_kbo.Text.Regex.{Regex, seq, literal, space, spaces, not_gt, star}
use airflow_kbo.Action.{Result, ok, err, invalid_raw_content, metadata_validation}
use airflow_kbo.Acquisition.Validate.{first_match, is_html, or_empty}

-- `meta.get("http_status")`: absent, a number, or something that `int` refuses.
pub data HttpStatus : Type 0 where
  absent : HttpStatus
  code_of : ℕ → HttpStatus
  unreadable : HttpStatus

-- The metadata that are read; `download_status` is "" where it is absent.
pub record RawMetadata : Type 0 where
  pub download_status : String
  pub http_status : HttpStatus

-- The keys that a metadata file must have.
abbrev required_metadata : List String
required_metadata =
    "scraped_at" ∷ "source" ∷ "download_status" ∷ "http_status" ∷ "proxy_or_ip" ∷ "attempt_count"
    ∷ "last_updated_at" ∷ []

unfoldable pub missing_keys : List String → List String → List String
missing_keys [] keys = []
missing_keys (k ∷ ks) keys =
    let rest = missing_keys ks keys in if any (λ j. j == k) keys then rest else k ∷ rest

-- `schema_version` is added where it is missing; only the keys are kept of a metadata file.
unfoldable pub validate_metadata_sidecar : List String → Result (List String)
unfolding missing_keys
validate_metadata_sidecar keys = elim (missing_keys required_metadata keys) [
  | k ∷ ks ↦ err metadata_validation
  | [] ↦ ok (if any (λ j. j == "schema_version") keys then keys else "schema_version" ∷ keys)
]

abbrev is_failed_status : HttpStatus → Bool
is_failed_status absent = false
is_failed_status (code_of n) = leb 400 n
is_failed_status unreadable = true

module _ ⦃u : Unicode⦄ where
  unfoldable pub storage_error_markers : List Regex
  storage_error_markers =
      seq (literal "<title") (seq not_gt (seq (literal ">") (seq (star space) (literal "404"))))
      ∷ seq (literal "page") (seq spaces (seq (literal "not") (seq spaces (literal "found"))))
      ∷ seq (literal "erreur") (seq spaces (literal "404"))
      ∷ seq (literal "access") (seq spaces (literal "denied"))
      ∷ seq (literal "service") (seq spaces (literal "unavailable"))
      ∷ []

  abbrev is_other_status : String → Bool
  is_other_status status = truthy (u.upper status) && not (u.upper status == "SUCCESS")

  -- The tests on a page.
  unfoldable pub reject_page : List ℕ → Result Unit
  reject_page content =
      if ltb (length content) 64
      then err invalid_raw_content
      else elim (first_match storage_error_markers (u.decode content) 0) [
        | some n ↦ err invalid_raw_content
        | none ↦ ok tt
      ]

  unfoldable pub reject_invalid_raw_content : List ℕ → RawMetadata → Option String → Result Unit
  reject_invalid_raw_content [] meta content_type = err invalid_raw_content
  reject_invalid_raw_content (b ∷ content) meta content_type =
      if is_other_status meta.download_status
      then err invalid_raw_content
      else if is_failed_status meta.http_status
      then err invalid_raw_content
      else if not (is_html (u.lower (or_empty content_type)) (b ∷ content))
      then ok tt
      else reject_page (b ∷ content)

  -- What the store takes.
  pub IsStorable : List ℕ → RawMetadata → Option String → Type 0
  IsStorable content meta content_type =
      (1 ≤ length content)
      × (is_other_status meta.download_status ≡ false)
      × (is_failed_status meta.http_status ≡ false)
      × (is_html (u.lower (or_empty content_type)) content ≡ true
          → (64 ≤ length content) × (first_match storage_error_markers (u.decode content) 0 ≡ none))
