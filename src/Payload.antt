-- ===== src/Payload.antt =====
-- The JSON documents that packages/extraction writes into a snapshot, and that packages/discovery
-- and packages/lifecycle read: `fields` of a parsed document, and `enterprise_detail`.
use airflow_kbo.Prelude.{
  ℕ, String, ◌≡◌, refl, Bool, true, false, Option, List, [], ◌∷◌, arith, ◌==◌, eq_iff,
  if◌then◌else◌, ltb, any, Bool-cases, inl, inr,
}
use airflow_kbo.Text.{truthy}

-- The values that the parsers put under a field.
pub data Value : Type 0 where
  null : Value
  text : String → Value
  number : ℕ → Value
  flag : Bool → Value
  texts : List String → Value
  rows : List (List (String × Option String)) → Value

abbrev pub Dict : Type 0
Dict = List (String × Value)

-- d.get(key)
unfoldable pub get : String → Dict → Value
get key [] = null
get key ((k, v) ∷ d) = if k == key then v else get key d

-- d[key] = v
unfoldable pub put : String → Value → Dict → Dict
put key v [] = (key, v) ∷ []
put key v ((k, w) ∷ d) = if k == key then (k, v) ∷ d else (k, w) ∷ put key v d

pub get-put :
    (key j : String) (v : Value) (d : Dict)
    → get j (put key v d) ≡ (if key == j then v else get j d)
unfolding get put
get-put key j v [] = refl
get-put key j v ((k, w) ∷ d) =
    ground (arith, get-put key j v d, eq_iff k key, eq_iff k j, eq_iff key j)

abbrev pub has_field : String → Dict → Bool
has_field key d = any (λ (f : String × Value). f.0 == key) d

-- d.get(key, default)
abbrev pub get_or : String → Value → Dict → Value
get_or key default d = if has_field key d then get key d else default

-- d.setdefault(key, v)
abbrev pub set_default : String → Value → Dict → Dict
set_default key v d = if has_field key d then d else put key v d

pub has_field-put : (key : String) (v : Value) (d : Dict) → has_field key (put key v d) ≡ true
unfolding put
has_field-put key v [] = ground (arith, eq_iff key key)
has_field-put key v ((k, w) ∷ d) = ground (arith, has_field-put key v d)

-- A second default changes nothing.
pub set_default_again :
    (key : String) (v w : Value) (d : Dict)
    → set_default key w (set_default key v d) ≡ set_default key v d
set_default_again key v w d = elim (Bool-cases (has_field key d)) [
  | inl there ↦ rw there (rw there refl)
  | inr absent ↦ rw absent (rw (has_field-put key v d) refl)
]

pub get-set_default :
    (key j : String) (v : Value) (d : Dict)
    → (key == j) ≡ false
    → get j (set_default key v d) ≡ get j d
get-set_default key j v d other = elim (Bool-cases (has_field key d)) [
  | inl there ↦ rw there refl
  | inr absent ↦ rw absent (ground (arith, get-put key j v d))
]

-- v is not None
abbrev pub is_some : Value → Bool
is_some null = false
is_some _ = true

-- bool(v)
abbrev pub is_true : Value → Bool
is_true null = false
is_true (text s) = truthy s
is_true (number n) = ltb 0 n
is_true (flag b) = b
is_true (texts []) = false
is_true (texts (x ∷ xs)) = true
is_true (rows []) = false
is_true (rows (x ∷ xs)) = true

-- A list of texts under a field, `d.get(key, [])`.
abbrev pub as_texts : Value → List String
as_texts (texts xs) = xs
as_texts _ = []

pub record ParsedDocument : Type 0 where
  pub source : String
  pub doc_type : String
  pub run_id : String
  pub extractor_version : String
  pub schema_version : ℕ
  pub partial : Bool
  pub fields : Dict

pub record MoniteurBlock : Type 0 where
  pub result_link_count : Value
  pub publication_count_hint : Value
  pub publications_preview : Value
  pub partial : Bool

pub record OtherSource : Type 0 where
  pub source : String
  pub doc_type : String
  pub label : String
  pub partial : Bool
  pub summary : String
  pub page_title : Value
  pub content_bytes : Value

-- `enterprise_detail`: the plain keys, and the blocks that hold dicts.
pub record Detail : Type 0 where
  pub keys : Dict
  pub moniteur : Option MoniteurBlock
  pub other_sources : List OtherSource
  pub registry_complete : Bool

pub record Consolidation : Type 0 where
  pub kbo_doc_type : Option String
  pub document_count : ℕ
  pub any_partial : Bool

pub record Payload : Type 0 where
  pub parsed_at : ℕ
  pub enterprise_number : String
  pub enterprise_detail : Option Detail
  pub documents : List ParsedDocument
  pub consolidation : Option Consolidation
