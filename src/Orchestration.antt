-- ===== src/Orchestration.antt =====
-- packages/orchestration/scrape_parallel.py: the parameters of a scrape by source, and its two ends.
pub mod Accepted
use Prim.Native.Char.{code}
use airflow_kbo.Prelude.{
  ℕ, suc, String, ◌≡◌, Bool, true, false, not, Option, none, some, List, [], ◌∷◌, map, ◌==◌,
  if◌then◌else◌, nat_eq, keep, any, length,
}
use airflow_kbo.Text.{Unicode, truthy, strip}
use airflow_kbo.Action.{Action, Result, ok, err, pure, lift, ◌>>=◌, value_error}
use airflow_kbo.Persistence.Session.{Session}
use airflow_kbo.Persistence.Repositories.{normalize_all, claim_enterprises_for_scrape}
use airflow_kbo.Acquisition.Policy.{ℤ, capped}
use airflow_kbo.Acquisition.Sources.{Setting, Adapter, source, split_char, get_adapters}
use airflow_kbo.Acquisition.Finalize.{FinalizeReport, finalize_scrape_for_enterprises}

-- A value of a run's configuration: None, a list by the texts of its items, or the text of anything
-- else.
pub data Param : Type 0 where
  absent : Param
  items : List String → Param
  scalar : String → Param

abbrev pub default_scrape_sources : List String
default_scrape_sources = "kbo" ∷ "moniteur" ∷ "statutes" ∷ "bnb" ∷ []

-- s.replace(";", ",")
unfoldable pub semicolons_to_commas : String → String
semicolons_to_commas String.[] = String.[]
semicolons_to_commas (String.◌∷◌ c s) =
    String.◌∷◌ (if nat_eq (code c) b';' then "," else c) (semicolons_to_commas s)

abbrev pub is_default_source : String → Bool
is_default_source name = any (λ d. d == name) default_scrape_sources

-- The names, unless one of them is unknown.
abbrev pub unless_unknown : List String → List String → Result (List String)
unless_unknown [] parts = ok parts
unless_unknown (p ∷ ps) parts = err value_error

abbrev pub known_sources : List String → Result (List String)
known_sources parts = unless_unknown (keep (λ p. not (is_default_source p)) parts) parts

pub record Prepared : Type 0 where
  pub enterprise_numbers : List String
  pub claimed : ℕ
  pub requested : Option ℕ

abbrev pub requested_of : Option (List String) → Option ℕ
requested_of none = none
requested_of (some []) = none
requested_of (some (n ∷ ns)) = some (length (n ∷ ns))

abbrev pub no_entries : FinalizeReport
no_entries = record { finalized = 0; succeeded = 0; failed = 0; enterprises = [] }

module _ ⦃u : Unicode⦄ where
  -- [s.strip() for s in parts if s.strip()]
  abbrev pub strip_all : List String → List String
  strip_all parts = map strip (keep (λ s. truthy (strip s)) parts)

  -- The parts of a text between commas and semicolons.
  abbrev pub parts_of : String → List String
  parts_of s = strip_all (split_char "," (semicolons_to_commas s))

  abbrev pub normalize_some : List String → Result (Option (List String))
  normalize_some [] = ok none
  normalize_some (n ∷ ns) = elim (normalize_all (n ∷ ns)) [
    | ok numbers ↦ ok (some numbers)
    | err e ↦ err e
  ]

  unfoldable pub parse_enterprise_numbers_param : Param → Result (Option (List String))
  unfolding split_char semicolons_to_commas normalize_all
  parse_enterprise_numbers_param absent = ok none
  parse_enterprise_numbers_param (items parts) = normalize_some (strip_all parts)
  parse_enterprise_numbers_param (scalar s) =
      if truthy (strip s) then normalize_some (parts_of (strip s)) else ok none

  unfoldable pub parse_sources_param : Param → Result (List String)
  unfolding split_char semicolons_to_commas
  parse_sources_param absent = ok default_scrape_sources
  parse_sources_param (items []) = ok default_scrape_sources
  parse_sources_param (items (p ∷ ps)) = known_sources (map u.lower (strip_all (p ∷ ps)))
  parse_sources_param (scalar s) =
      let t = u.lower (strip s) in
      if truthy t then known_sources (parts_of t) else ok default_scrape_sources

  -- `int` is Python's.
  unfoldable pub parse_parallel_requests_per_site : (String → Option ℤ) → Param → ℕ → Result ℕ
  parse_parallel_requests_per_site int absent default = ok default
  parse_parallel_requests_per_site int (items parts) default = err value_error
  parse_parallel_requests_per_site int (scalar s) default =
      if truthy s
      then elim (int s) [ none ↦ err value_error | some n ↦ ok (capped n) ]
      else ok default

  -- A session that is committed, or rolled back after an exception.
  abbrev pub in_scope : {A : Type 0} → Session → Result A × Session → Result A × Session
  in_scope before (ok a, after) = (ok a, after)
  in_scope before (err e, after) = (err e, record before { ticks = after.ticks })

  abbrev pub prepare : ℕ → String → ℕ → Option (List String) → Action Session Prepared
  prepare limit worker_id lock_seconds numbers = do
    claimed ←
        claim_enterprises_for_scrape limit worker_id lock_seconds
          (elim numbers [ none ↦ [] | some ns ↦ ns ])
    pure (record {
      enterprise_numbers = claimed;
      claimed = length claimed;
      requested = requested_of numbers;
    })

  unfoldable pub run_scrape_prepare :
      ℕ → String → ℕ → Option (List String) → Action Session Prepared
  unfolding claim_enterprises_for_scrape
  run_scrape_prepare limit worker_id lock_seconds numbers s =
      in_scope s (prepare limit worker_id lock_seconds numbers s)

  -- sources or DEFAULT_SCRAPE_SOURCES
  abbrev pub enabled_sources : Option (List String) → List String
  enabled_sources none = default_scrape_sources
  enabled_sources (some []) = default_scrape_sources
  enabled_sources (some (name ∷ names)) = name ∷ names

  unfoldable pub run_scrape_finalize :
      Setting → String → Option (List String) → List String → Action Session FinalizeReport
  unfolding get_adapters finalize_scrape_for_enterprises
  run_scrape_finalize w worker_id sources [] s = (ok no_entries, s)
  run_scrape_finalize w worker_id sources (n ∷ numbers) s =
      elim (get_adapters w (some (enabled_sources sources))) [
        | err e ↦ (err e, s)
        | ok adapters ↦
            in_scope s
              (finalize_scrape_for_enterprises (map source adapters) worker_id (n ∷ numbers) s)
      ]
