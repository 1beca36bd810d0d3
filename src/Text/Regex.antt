-- ===== src/Text/Regex.antt =====
-- The part of Python's `re` that the marker patterns use: `pattern.search(text)` by derivatives.
use Prim.Native.Char.{code}
use airflow_kbo.Prelude.{Char, String, Bool, true, false, not, ◌&&◌, ◌||◌, nat_eq, if◌then◌else◌}
use airflow_kbo.Text.{Unicode}

pub data Regex : Type 0 where
  never : Regex
  empty : Regex
  one : (Char → Bool) → Regex
  seq : Regex → Regex → Regex
  alt : Regex → Regex → Regex
  star : Regex → Regex

unfoldable pub nullable : Regex → Bool
nullable never = false
nullable empty = true
nullable (one p) = false
nullable (seq r t) = nullable r && nullable t
nullable (alt r t) = nullable r || nullable t
nullable (star r) = true

-- What is left to match once a character is read.
unfoldable pub derive : Char → Regex → Regex
derive c never = never
derive c empty = never
derive c (one p) = if p c then empty else never
derive c (seq r t) =
    if nullable r then alt (seq (derive c r) t) (derive c t) else seq (derive c r) t
derive c (alt r t) = alt (derive c r) (derive c t)
derive c (star r) = seq (derive c r) (star r)

-- A match at the start of the text.
unfoldable pub matches_here : Regex → String → Bool
matches_here r String.[] = nullable r
matches_here r (String.◌∷◌ c s) = nullable r || matches_here (derive c r) s

-- A match anywhere.
unfoldable pub search : Regex → String → Bool
unfolding matches_here
search r String.[] = matches_here r String.[]
search r (String.◌∷◌ c s) = matches_here r (String.◌∷◌ c s) || search r s

module _ ⦃u : Unicode⦄ where
  -- A literal under `re.I`.
  abbrev pub literal : String → Regex
  literal String.[] = empty
  literal (String.◌∷◌ c s) = seq (one (u.same_ignoring_case c)) (literal s)

  -- `\s`, `\s+`, `\s*`
  abbrev pub space : Regex
  space = one u.is_space

  abbrev pub spaces : Regex
  spaces = seq space (star space)

-- `[^>]*` and `.*`
abbrev pub not_gt : Regex
not_gt = star (one (λ c. not (nat_eq (code c) b'>')))

abbrev pub anything : Regex
anything = star (one (λ c. not (nat_eq (code c) 10)))
