-- ===== src/Text.antt =====
-- Text as the program uses it: sequences of characters, substring tests, and what Python's
-- Unicode tables decide.
pub mod Regex
use Prim.Native.Char.{code}
use Prim.Native.String.{◌++◌ as append}
use airflow_kbo.Prelude.{
  ℕ, zero, suc, Char, String, ◌≡◌, refl, Bool, true, false, not, ◌&&◌, ◌||◌, List, [], ◌∷◌, arith,
  nat_eq, if◌then◌else◌, Bool-cases, inl, inr,
}

-- What Python's Unicode tables decide: the classes `\d` and `\s` of `re` (`\s` is also what
-- `str.strip` drops), equality of characters under `re.I`, `str.lower` and `str.upper`, and the UTF-8 decoding
-- with `errors="replace"`.
pub record Unicode : Type 0 where
  pub is_digit : Char → Bool
  pub is_space : Char → Bool
  pub same_ignoring_case : Char → Char → Bool
  pub lower : String → String
  pub upper : String → String
  pub decode : List ℕ → String

abbrev pub char_eq : Char → Char → Bool
char_eq c d = nat_eq (code c) (code d)

infixr 66 ◌<>◌
abbrev pub ◌<>◌ : String → String → String
s <> t = append s t

-- The number of code points, Python's `len`.
abbrev pub size : String → ℕ
size String.[] = 0
size (String.◌∷◌ c s) = suc (size s)

-- Truth of a text: it is not empty.
abbrev pub truthy : String → Bool
truthy String.[] = false
truthy (String.◌∷◌ c s) = true

abbrev pub all_chars : (Char → Bool) → String → Bool
all_chars p String.[] = true
all_chars p (String.◌∷◌ c s) = p c && all_chars p s

-- The characters that pass a test, in order.
unfoldable pub keep_chars : (Char → Bool) → String → String
keep_chars p String.[] = String.[]
keep_chars p (String.◌∷◌ c s) = let rest = keep_chars p s in if p c then String.◌∷◌ c rest else rest

-- text.lstrip(), text.rstrip('/') and their kin: by the characters to drop.
unfoldable pub drop_left : (Char → Bool) → String → String
drop_left p String.[] = String.[]
drop_left p (String.◌∷◌ c s) = let rest = drop_left p s in if p c then rest else String.◌∷◌ c s

unfoldable pub drop_right : (Char → Bool) → String → String
drop_right p String.[] = String.[]
drop_right p (String.◌∷◌ c s) =
    let rest = drop_right p s in if p c && not (truthy rest) then String.[] else String.◌∷◌ c rest

-- s.strip()
abbrev pub strip : ⦃u : Unicode⦄ → String → String
strip ⦃u⦄ s = drop_right u.is_space (drop_left u.is_space s)

-- s.startswith(p), with the prefix first.
unfoldable pub has_prefix : String → String → Bool
has_prefix String.[] s = true
has_prefix (String.◌∷◌ c p) String.[] = false
has_prefix (String.◌∷◌ c p) (String.◌∷◌ d s) = char_eq c d && has_prefix p s

-- p in s
unfoldable pub contains : String → String → Bool
unfolding has_prefix
contains p String.[] = has_prefix p String.[]
contains p (String.◌∷◌ d s) = has_prefix p (String.◌∷◌ d s) || contains p s

-- x in (a, b, …)
abbrev pub any_contains : List String → String → Bool
any_contains [] s = false
any_contains (p ∷ ps) s = contains p s || any_contains ps s

pub keep_chars-all : (p : Char → Bool) (s : String) → all_chars p (keep_chars p s) ≡ true
unfolding keep_chars
keep_chars-all p String.[] = refl
keep_chars-all p (String.◌∷◌ c s) = ground (arith, keep_chars-all p s)

pub keep_chars_of_all : (p : Char → Bool) (s : String) → all_chars p s ≡ true → keep_chars p s ≡ s
unfolding keep_chars
keep_chars_of_all p String.[] h = refl
keep_chars_of_all p (String.◌∷◌ c s) h = ground (arith, keep_chars_of_all p s)

contains-nil : (s : String) → contains String.[] s ≡ true
unfolding contains
contains-nil String.[] = refl
contains-nil (String.◌∷◌ c s) = refl

has_prefix→contains : (p s : String) → has_prefix p s ≡ true → contains p s ≡ true
unfolding contains
has_prefix→contains p String.[] h = h
has_prefix→contains p (String.◌∷◌ c s) h = rw h

-- A text that holds `c ∷ p` holds `p`.
pub contains-tail :
    (c : Char) (p s : String) → contains (String.◌∷◌ c p) s ≡ true → contains p s ≡ true
unfolding contains
contains-tail c p String.[] h = ground arith
contains-tail c p (String.◌∷◌ d s) h = ground (arith, has_prefix→contains p s, contains-tail c p s)
