-- ===== src/Acquisition/Sources.antt =====
-- packages/acquisition/sources: the addresses that each source is asked for, and the choice of the
-- sources.
pub mod Chosen
use Prim.Native.Char.{code}
use airflow_kbo.Prelude.{
  ℕ, zero, suc, Char, String, Bool, true, false, Option, none, some, List, [], ◌∷◌, ◌++◌, map, ◌==◌,
  ◌||◌, not, if◌then◌else◌, nat_eq, keep, find,
}
use airflow_kbo.Text.{Unicode, ◌<>◌, truthy, drop_left, drop_right, strip}
use airflow_kbo.Action.{Result, ok, err, value_error}
use airflow_kbo.Storage.Paths.{normalize_enterprise_number}
use airflow_kbo.Acquisition.Models.{FetchJob}

-- What the sources take from outside: os.environ.get(name, "") and urllib.parse.urlencode.
pub record Setting : Type 0 where
  pub environ : String → String
  pub urlencode : List (String × String) → String

-- The four adapters; their classes have no state.
pub data Adapter : Type 0 where
  kbo moniteur statutes bnb : Adapter

abbrev pub source : Adapter → String
source kbo = "kbo"
source moniteur = "moniteur"
source statutes = "statutes"
source bnb = "bnb"

abbrev pub all_adapters : List Adapter
all_adapters = kbo ∷ moniteur ∷ statutes ∷ bnb ∷ []

abbrev default_kbo_base : String
default_kbo_base = "https://kbopub.economie.fgov.be/kbopub/"

abbrev kbo_default_lang : String
kbo_default_lang = "fr"

abbrev default_bnb_base : String
default_bnb_base = "https://consult.cbso.nbb.be/"

abbrev default_moniteur_base : String
default_moniteur_base = "https://www.ejustice.just.fgov.be/cgi_tsv/"

abbrev is_slash : Char → Bool
is_slash c = nat_eq (code c) b'/'

-- s[:n] and s[n:]
unfoldable pub first_chars : ℕ → String → String
first_chars zero s = ""
first_chars (suc n) String.[] = ""
first_chars (suc n) (String.◌∷◌ c s) = String.◌∷◌ c (first_chars n s)

unfoldable pub after_chars : ℕ → String → String
after_chars zero s = s
after_chars (suc n) String.[] = ""
after_chars (suc n) (String.◌∷◌ c s) = after_chars n s

-- A text that ends with the character.
unfoldable pub ends_with : Char → String → Bool
ends_with c String.[] = false
ends_with c (String.◌∷◌ d String.[]) = nat_eq (code d) (code c)
ends_with c (String.◌∷◌ d (String.◌∷◌ e s)) = ends_with c (String.◌∷◌ e s)

abbrev pub push_char : Char → List String → List String
push_char c [] = String.◌∷◌ c "" ∷ []
push_char c (part ∷ parts) = String.◌∷◌ c part ∷ parts

-- s.split(c)
unfoldable pub split_char : Char → String → List String
split_char c String.[] = "" ∷ []
split_char c (String.◌∷◌ d s) =
    let rest = split_char c s in if nat_eq (code d) (code c) then "" ∷ rest else push_char d rest

abbrev pub adapter_by_name : String → Option Adapter
adapter_by_name name = find (λ a. source a == name) all_adapters

abbrev pub select : Option Adapter → Result (List Adapter) → Result (List Adapter)
select none rest = err value_error
select (some a) (ok rest) = ok (a ∷ rest)
select (some a) (err e) = err e

-- The adapters of the names, in their order; the first unknown name raises.
unfoldable pub adapters_named : List String → Result (List Adapter)
adapters_named [] = ok []
adapters_named (name ∷ names) = select (adapter_by_name name) (adapters_named names)

abbrev pub and_job : Result FetchJob → Result (List FetchJob) → Result (List FetchJob)
and_job (err e) rest = err e
and_job (ok job) (err e) = err e
and_job (ok job) (ok jobs) = ok (job ∷ jobs)

module _ ⦃u : Unicode⦄ where
  unfoldable pub kbo_formatted_nummer : String → Result String
  unfolding first_chars after_chars
  kbo_formatted_nummer value = elim (normalize_enterprise_number value) [
    | err e ↦ err e
    | ok d ↦ ok (
        first_chars 4 d
        <> "."
        <> first_chars 3 (after_chars 4 d)
        <> "."
        <> first_chars 3 (after_chars 7 d))
  ]

  unfoldable pub make_job : String → String → String → String → Result FetchJob
  make_job url site doc_type value = elim (normalize_enterprise_number value) [
    | err e ↦ err e
    | ok n ↦ ok (record { url = url; source = site; doc_type = doc_type; enterprise_number = n })
  ]

  -- The names of `ACQUISITION_ENABLED_SOURCES`, or of the text that is given.
  unfoldable pub parse_enabled_sources : Setting → Option String → List String
  unfolding split_char
  parse_enabled_sources w raw =
      let value =
        strip (elim raw [ none ↦ w.environ "ACQUISITION_ENABLED_SOURCES" | some s ↦ s ]) in
      if not (truthy value) || (u.lower value == "all")
      then map source all_adapters
      else map (λ s. u.lower (strip s)) (keep (λ s. truthy (strip s)) (split_char "," value))

  unfoldable pub get_adapters : Setting → Option (List String) → Result (List Adapter)
  unfolding adapters_named parse_enabled_sources
  get_adapters w none = adapters_named (parse_enabled_sources w none)
  get_adapters w (some names) = adapters_named names

  module _ (w : Setting) where
    unfoldable pub base_url : String → String → String
    unfolding ends_with
    base_url env_name default =
        let raw = strip (w.environ env_name) in
        if not (truthy raw) then default else if ends_with "/" raw then raw else raw <> "/"

    abbrev pub kbo_base_url : String
    kbo_base_url = base_url "KBO_PUBLIC_BASE_URL" default_kbo_base

    abbrev pub bnb_base_url : String
    bnb_base_url = base_url "BNB_CONSULT_BASE_URL" default_bnb_base

    abbrev pub moniteur_base_url : String
    moniteur_base_url = base_url "MONITEUR_EJUSTICE_BASE_URL" default_moniteur_base

    abbrev pub page_url : String → String → List (String × String) → String
    page_url base path params =
        let query = w.urlencode params in
        let page = base <> drop_left is_slash path in
        if truthy query then page <> "?" <> query else page

    unfoldable pub kbo_page : String → List (String × String) → String
    unfolding base_url
    kbo_page path params = page_url kbo_base_url path params

    unfoldable pub moniteur_page : String → List (String × String) → String
    unfolding base_url
    moniteur_page script params = page_url moniteur_base_url script params

    -- KBO_INCLUDE_PROFILE
    abbrev pub kbo_include_profile : Bool
    kbo_include_profile =
        let flag = u.lower (strip (w.environ "KBO_INCLUDE_PROFILE")) in
        (flag == "1") || (flag == "true") || (flag == "yes")

    abbrev pub kbo_profile_job : String → Result FetchJob
    kbo_profile_job number = elim (kbo_formatted_nummer number) [
      | err e ↦ err e
      | ok formatted ↦
          make_job
            (kbo_page "zoeknummerform.html"
              (("lang", kbo_default_lang) ∷ ("nummer", formatted) ∷ []))
            "kbo" "profile" number
    ]

    abbrev pub kbo_detail_job : String → Result FetchJob
    kbo_detail_job number =
        make_job
          (kbo_page "toonondernemingps.html"
            (("lang", kbo_default_lang) ∷ ("ondernemingsnummer", number) ∷ []))
          "kbo" "enterprise_detail" number

    abbrev pub kbo_jobs : String → Result (List FetchJob)
    kbo_jobs number =
        let detail = and_job (kbo_detail_job number) (ok []) in
        if kbo_include_profile then and_job (kbo_profile_job number) detail else detail

    abbrev pub moniteur_job : String → Result FetchJob
    moniteur_job number =
        make_job (moniteur_page "rech.pl" (("language", "fr") ∷ ("btw", number) ∷ [])) "moniteur"
          "publication_search" number

    abbrev pub statutes_job : String → Result FetchJob
    statutes_job number =
        let notaire_url = strip (w.environ "NOTAIRE_STATUTES_URL") in
        if truthy notaire_url
        then make_job notaire_url "statutes" "statutes_notaire_info" number
        else make_job (moniteur_page "list.pl" (("language", "fr") ∷ ("btw", number) ∷ []))
            "statutes" "publications_index" number

    abbrev pub bnb_job : String → Result FetchJob
    bnb_job number =
        make_job (drop_right is_slash bnb_base_url <> "/consult-enterprise/" <> number) "bnb"
          "consult_profile" number

    abbrev pub jobs_for : Adapter → String → Result (List FetchJob)
    jobs_for kbo number = kbo_jobs number
    jobs_for moniteur number = and_job (moniteur_job number) (ok [])
    jobs_for statutes number = and_job (statutes_job number) (ok [])
    jobs_for bnb number = and_job (bnb_job number) (ok [])

    -- adapter.build_urls(enterprise_number)
    unfoldable pub build_urls : Adapter → String → Result (List FetchJob)
    unfolding base_url kbo_page moniteur_page make_job kbo_formatted_nummer
    build_urls a value = elim (normalize_enterprise_number value) [
      | err e ↦ err e
      | ok number ↦ jobs_for a number
    ]
