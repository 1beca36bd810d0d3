-- ===== src/Storage/Layout.antt =====
-- packages/storage/paths.py: the directory of a raw document.
use airflow_kbo.Prelude.{String, Option, none, some, nat_eq, if◌then◌else◌}
use Prim.Native.Char.{code}
use airflow_kbo.Text.{Unicode, ◌<>◌, truthy, contains, drop_right}
use airflow_kbo.Action.{Result, ok, err}
use airflow_kbo.Storage.Paths.{normalize_enterprise_number, check_segment}

-- `run_id or new_run_id()`, where `fresh` is the text of the new UUID.
abbrev pub or_fresh : Option String → String → String
or_fresh none fresh = fresh
or_fresh (some run_id) fresh = if truthy run_id then run_id else fresh

abbrev join_parts : String → String → String → String → String → String
join_parts raw_root source number doc_type run_id =
    drop_right (λ c. nat_eq (code c) b'/') raw_root
    <> "/source="
    <> source
    <> "/enterprise_number="
    <> number
    <> "/doc_type="
    <> doc_type
    <> "/run_id="
    <> run_id

abbrev then_check : Result String → (String → Result String) → Result String
then_check (ok a) f = f a
then_check (err e) f = err e

-- The checks run in the order number, source, document type, run.
unfoldable pub build_raw_dir_path :
    ⦃u : Unicode⦄ → String → String → String → String → Option String → String → Result String
build_raw_dir_path raw_root source enterprise_number doc_type run_id fresh =
    then_check (normalize_enterprise_number enterprise_number) (λ ent.
      then_check (check_segment source) (λ src. then_check (check_segment doc_type) (λ dtype.
        then_check (check_segment (or_fresh run_id fresh))
          (λ rid. ok (join_parts raw_root src ent dtype rid)))))

abbrev basename_of_type : ⦃u : Unicode⦄ → Option String → String
basename_of_type none = "document.bin"
basename_of_type ⦃u⦄ (some t) =
    if contains "html" (u.lower t) then "document.html" else "document.bin"

-- The name of the stored file.
unfoldable pub document_basename : ⦃u : Unicode⦄ → Option String → Option String → String
document_basename content_type none = basename_of_type content_type
document_basename content_type (some name) =
    if truthy name then name else basename_of_type content_type
