-- ===== src/Storage/Paths.antt =====
-- packages/storage/paths.py: enterprise numbers and the layout of raw documents.
use Prim.Native.Char.{code}
use airflow_kbo.Prelude.{
  Char, String, ◌≡◌, Bool, true, false, ◌&&◌, ◌||◌, arith, nat_eq, leb, if◌then◌else◌,
}
use airflow_kbo.Text.{
  Unicode, ◌<>◌, size, all_chars, keep_chars, drop_right, keep_chars-all, keep_chars_of_all,
}
use airflow_kbo.Action.{value_error, Result, ok, err}

-- `[a-zA-Z0-9_.-]`
abbrev is_safe : Char → Bool
is_safe ch =
    let c = code ch in
    (leb b'a' c && leb c b'z')
    || (leb b'A' c && leb c b'Z')
    || (leb b'0' c && leb c b'9')
    || nat_eq c b'_'
    || nat_eq c b'.'
    || nat_eq c b'-'

-- `^[a-zA-Z0-9_.-]+$`, where `$` also matches before a newline that ends the text.
unfoldable safe_rest : String → Bool
safe_rest String.[] = true
safe_rest (String.◌∷◌ d String.[]) = is_safe d || nat_eq (code d) 10
safe_rest (String.◌∷◌ d (String.◌∷◌ e t)) = is_safe d && safe_rest (String.◌∷◌ e t)

unfoldable pub matches_safe_segment : String → Bool
unfolding safe_rest
matches_safe_segment String.[] = false
matches_safe_segment (String.◌∷◌ c s) = is_safe c && safe_rest s

unfoldable pub check_segment : String → Result String
check_segment value = if matches_safe_segment value then ok value else err value_error

unfoldable pub join_hdfs_path : String → String → String
join_hdfs_path directory filename =
    drop_right (λ c. nat_eq (code c) b'/') directory <> "/" <> filename

module _ ⦃u : Unicode⦄ where
  -- re.sub(r"\D", "", value), then the test of the length.
  unfoldable pub normalize_enterprise_number : String → Result String
  normalize_enterprise_number value =
      let digits = keep_chars u.is_digit value in
      if nat_eq (size digits) 10 then ok digits else err value_error

  -- A normalised number: ten digits.
  abbrev pub IsNumber : String → Type 0
  IsNumber s = (size s ≡ 10) × (all_chars u.is_digit s ≡ true)

  pub normalize-IsNumber :
      (value : String) {n : String} → normalize_enterprise_number value ≡ ok n → IsNumber n
  unfolding normalize_enterprise_number
  normalize-IsNumber value h = ground (arith, keep_chars-all u.is_digit value)

  pub normalize_of_IsNumber : (n : String) → IsNumber n → normalize_enterprise_number n ≡ ok n
  unfolding normalize_enterprise_number
  normalize_of_IsNumber n h = rw (keep_chars_of_all u.is_digit n h.1) (ground arith)
