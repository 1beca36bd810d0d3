-- ===== src/Storage/RawStore.antt =====
-- packages/storage/raw_store.py: a raw document and its metadata file are written to one directory
-- of the file store, and read back. The file store (`HdfsClient` of hdfs_client.py), JSON, SHA-256
-- and Python's conversions are interfaces.

pub mod RoundTrip
use airflow_kbo.Prelude.{
  ℕ, String, ◌≡◌, refl, Bool, true, false, not, ◌||◌, Option, none, some, List, [], ◌∷◌, map, ◌==◌,
  if◌then◌else◌, length, any,
}
use airflow_kbo.Text.{Unicode, ◌<>◌, truthy, drop_left}
use airflow_kbo.Action.{
  Action, Result, ok, err, pure, raise, lift, ◌>>=◌, ◌>>◌, metadata_validation,
  raw_bundle_not_found, attribute_error, file_not_found, json_decode_error,
}
use airflow_kbo.Payload.{Value, text, number, Dict, get, get_or, set_default, put, is_true}
use airflow_kbo.Storage.Paths.{join_hdfs_path}
use airflow_kbo.Storage.Layout.{build_raw_dir_path, document_basename, or_fresh}
use airflow_kbo.Storage.Models.{PutResult, StoreResult}
use airflow_kbo.Storage.Validation.{
  HttpStatus, RawMetadata, reject_invalid_raw_content, validate_metadata_sidecar,
}

-- The file store, over its state.
pub record HdfsClient (F : Type 0) : Type 0 where
  pub put_bytes : String → List ℕ → Action F Unit
  pub get_bytes : String → F → Result (List ℕ)
  pub exists : String → F → Bool
  pub ensure_dir : String → Action F Unit

-- What the store uses of Python: `json.dumps` and `json.loads` with UTF-8, `hexdigest`, and `str` and
-- `int` of a value.
pub record Python : Type 0 where
  pub dumps : Dict → List ℕ
  pub loads : List ℕ → Result Dict
  pub sha256 : List ℕ → String
  pub show : Value → String
  pub to_int : Value → HttpStatus

pub record StorageConfig : Type 0 where
  pub hdfs_raw_root : String
  pub sidecar_schema_version : ℕ
  pub metadata_filename : String
  pub default_document_name : String

abbrev pub text_of : Value → Option String
text_of (text s) = some s
text_of v = none

abbrev pub field_name : String × Value → String
field_name f = f.0

-- doc_name.endswith(".html")
unfoldable pub is_html_name : String → Bool
is_html_name String.[] = false
is_html_name (String.◌∷◌ c s) = String.◌∷◌ c s == ".html" || is_html_name s

-- `metadata.get("document_name") or cfg.default_document_name`
abbrev pub name_or_default : StorageConfig → Value → Value
name_or_default cfg v = if is_true v then v else text cfg.default_document_name

-- A value in an f-string.
abbrev pub formatted : Python → Value → String
formatted py (text s) = s
formatted py v = py.show v

abbrev pub alternative : String → String
alternative name = if is_html_name name then "document.bin" else "document.html"

-- What is no text has no `endswith`.
abbrev pub alternative_of : Value → Result String
alternative_of (text s) = ok (alternative s)
alternative_of v = err attribute_error

abbrev pub found_or_missing : Result (List ℕ) → Result (List ℕ)
found_or_missing (ok content) = ok content
found_or_missing (err file_not_found) = err raw_bundle_not_found
found_or_missing (err e) = err e

-- `except json.JSONDecodeError`
abbrev pub json_or_invalid : Result Dict → Result Dict
json_or_invalid (ok d) = ok d
json_or_invalid (err json_decode_error) = err metadata_validation
json_or_invalid (err e) = err e

module _ ⦃u : Unicode⦄ {F : Type 0} (client : HdfsClient F) (py : Python)
    (cfg : StorageConfig) where
  -- The checks where `validate` is set, by the metadata and the content type; `none` is
  -- `validate=False`.
  abbrev pub check_content : Option (RawMetadata × Option String) → List ℕ → Result Unit
  check_content none content = ok tt
  check_content (some (metadata, content_type)) content =
      reject_invalid_raw_content content metadata content_type

  unfoldable pub put_raw_object :
      Option (RawMetadata × Option String) → List ℕ → String → Action F PutResult
  put_raw_object validate content path = do
    lift (check_content validate content)
    client.put_bytes path content
    pure (record { hdfs_path = path; sha256 = py.sha256 content; size_bytes = length content })

  -- The missing `schema_version` is added.
  unfoldable pub write_metadata_sidecar : Dict → String → Action F String
  write_metadata_sidecar metadata hdfs_dir = do
    lift (validate_metadata_sidecar (map field_name metadata))
    let path = join_hdfs_path hdfs_dir cfg.metadata_filename
    client.put_bytes path
        (py.dumps (set_default "schema_version" (number cfg.sidecar_schema_version) metadata))
    pure path

  -- The path of the document: the named one, or the other default name.
  unfoldable pub document_path_of : String → Value → F → Result String
  document_path_of hdfs_dir name f =
      if client.exists (join_hdfs_path hdfs_dir (formatted py name)) f
      then ok (join_hdfs_path hdfs_dir (formatted py name))
      else elim (alternative_of name) [
        | err e ↦ err e
        | ok alt ↦
            if client.exists (join_hdfs_path hdfs_dir alt) f
            then ok (join_hdfs_path hdfs_dir alt)
            else err raw_bundle_not_found
      ]

  unfoldable pub read_document : String → Dict → Action F (List ℕ × Dict)
  unfolding document_path_of
  read_document hdfs_dir metadata f =
      (do
        path ←
            lift (document_path_of hdfs_dir (name_or_default cfg (get "document_name" metadata)) f)
        content ← lift (found_or_missing (client.get_bytes path f))
        pure (content, metadata))
        f

  unfoldable pub read_raw_bundle : String → Action F (List ℕ × Dict)
  unfolding read_document
  read_raw_bundle hdfs_dir f =
      let path = join_hdfs_path hdfs_dir cfg.metadata_filename in
      if client.exists path f
      then (do
        raw ← lift (client.get_bytes path f)
        metadata ← lift (json_or_invalid (py.loads raw))
        read_document hdfs_dir metadata)
          f
      else (err raw_bundle_not_found, f)

  -- The checks read two of the metadata; the content type is the third.
  abbrev pub read_metadata : Dict → RawMetadata
  read_metadata metadata = record {
    download_status = py.show (get_or "download_status" (text "") metadata);
    http_status = py.to_int (get "http_status" metadata);
  }

  abbrev pub with_bundle_keys : List ℕ → String → Dict → Dict
  with_bundle_keys content name metadata =
      set_default "schema_version" (number cfg.sidecar_schema_version)
        (put "document_name" (text name) (put "sha256" (text (py.sha256 content)) metadata))

  -- `store_raw_bundle` up to its event; `fresh` is the text of a new UUID.
  unfoldable pub write_bundle :
      String
      → String
      → String
      → List ℕ
      → Dict
      → Option String
      → Option String
      → String
      → Action F (StoreResult × Dict)
  unfolding put_raw_object write_metadata_sidecar
  write_bundle source enterprise_number doc_type content metadata run_id document_name fresh = do
    hdfs_dir ← lift (
        build_raw_dir_path cfg.hdfs_raw_root source enterprise_number doc_type
          (some (or_fresh run_id fresh)) fresh)
    let content_type = text_of (get "content_type" metadata)
    let name = document_basename content_type document_name
    lift (reject_invalid_raw_content content (read_metadata metadata) content_type)
    client.ensure_dir hdfs_dir
    stored ← put_raw_object none content (join_hdfs_path hdfs_dir name)
    let meta = with_bundle_keys content name metadata
    meta_path ← write_metadata_sidecar meta hdfs_dir
    pure (
      record {
        hdfs_dir = hdfs_dir;
        document_path = stored.hdfs_path;
        metadata_path = meta_path;
        sha256 = stored.sha256;
        size_bytes = stored.size_bytes;
      },
      meta,
    )
