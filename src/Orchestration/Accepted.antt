-- ===== src/Orchestration/Accepted.antt =====
-- packages/orchestration/scrape_parallel.py: what an accepted list of sources is good for.
use airflow_kbo.Prelude.{
  String, ◌≡◌, refl, sym, subst, true, not, some, List, [], ◌∷◌, ◌==◌, map, arith, eq_iff, keep,
  Bool-cases, if◌then◌else◌, inl, inr,
}
use airflow_kbo.Text.{Unicode, truthy, strip}
use airflow_kbo.Action.{ok}
use airflow_kbo.Acquisition.Sources.{
  Setting, Adapter, kbo, moniteur, statutes, bnb, source, get_adapters, adapters_named,
}
use airflow_kbo.Acquisition.Sources.Chosen.{source-found}
use airflow_kbo.Orchestration.{
  Param, absent, items, scalar, default_scrape_sources, is_default_source, known_sources,
  unless_unknown, parse_sources_param, parts_of, strip_all,
}

default_found : (name : String) → is_default_source name ≡ true → (a : Adapter) × (source a ≡ name)
default_found name h = elim (Bool-cases ("kbo" == name)) [
  | inl e ↦ (kbo, (eq_iff "kbo" name).0 e)
  | inr not_kbo ↦ elim (Bool-cases ("moniteur" == name)) [
    | inl e ↦ (moniteur, (eq_iff "moniteur" name).0 e)
    | inr not_moniteur ↦ elim (Bool-cases ("statutes" == name)) [
      | inl e ↦ (statutes, (eq_iff "statutes" name).0 e)
      | inr not_statutes ↦ (bnb, (eq_iff "bnb" name).0 (ground arith))
    ]
  ]
]

-- All names are those of adapters.
abbrev AllFound : List String → Type 0
AllFound names = (found : List Adapter) × (adapters_named names ≡ ok found)

kept-AllFound :
    (names : List String) → keep (λ p. not (is_default_source p)) names ≡ [] → AllFound names
unfolding adapters_named
kept-AllFound [] h = ([], refl)
kept-AllFound (name ∷ names) h = elim (Bool-cases (is_default_source name)) [
  | inr unknown ↦ absurd (ground arith)
  | inl known ↦
      let (a, same) = default_found name known in
      let (found, is_ok) = kept-AllFound names (ground arith) in
      (a ∷ found, rw (is_ok, sym same, source-found a))
]

ok-AllFound :
    (parts : List String) {names : List String}
    → AllFound parts
    → ok parts ≡ ok names
    → AllFound names
ok-AllFound parts found h = subst AllFound (cc h) found

known_sources-AllFound :
    (parts unknown : List String) {names : List String}
    → keep (λ p. not (is_default_source p)) parts ≡ unknown
    → unless_unknown unknown parts ≡ ok names
    → AllFound names
known_sources-AllFound parts [] e h = ok-AllFound parts (kept-AllFound parts e) h
known_sources-AllFound parts (p ∷ ps) e h = absurd cc

default-AllFound : {names : List String} → ok default_scrape_sources ≡ ok names → AllFound names
unfolding adapters_named
default-AllFound h =
    ok-AllFound default_scrape_sources (kbo ∷ moniteur ∷ statutes ∷ bnb ∷ [], refl) h

module _ ⦃u : Unicode⦄ (w : Setting) where
  -- Whatever value the parameter has, a list of sources that is accepted is one that all have
  -- adapters.
  parse_sources_param_lem :
      (raw : Param) {names : List String}
      → parse_sources_param raw ≡ ok names
      → (found : List Adapter) × (get_adapters w (some names) ≡ ok found)
  unfolding parse_sources_param get_adapters
  parse_sources_param_lem absent h = default-AllFound h
  parse_sources_param_lem (items []) h = default-AllFound h
  parse_sources_param_lem (items (p ∷ ps)) h =
      known_sources-AllFound (map u.lower (strip_all (p ∷ ps))) _ refl h
  parse_sources_param_lem (scalar s) {names} h =
      let t = u.lower (strip s) in
      elim (Bool-cases (truthy t)) [
        | inl some_text ↦ known_sources-AllFound (parts_of t) _ refl (
            subst
              (λ b.
                (if b then known_sources (parts_of t) else ok default_scrape_sources) ≡ ok names)
              some_text h)
        | inr no_text ↦ default-AllFound (
            subst
              (λ b.
                (if b then known_sources (parts_of t) else ok default_scrape_sources) ≡ ok names)
              no_text h)
      ]
