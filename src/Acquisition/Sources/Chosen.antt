-- ===== src/Acquisition/Sources/Chosen.antt =====
-- packages/acquisition/sources: the jobs of a source, and the sources of a list of names.
use airflow_kbo.Prelude.{
  ◌≤◌, String, ◌≡◌, ◌≢◌, ◌⊎◌, refl, eq_iff, Option, none, some, List, [], ◌∷◌, ◌++◌, map, arith, ap,
  length, All, All-each, Bool-cases, inl, inr,
}
use airflow_kbo.Text.{Unicode, truthy, strip}
use airflow_kbo.Action.{Result, ok, err, value_error}
use airflow_kbo.Storage.Paths.{
  normalize_enterprise_number, normalize-IsNumber, normalize_of_IsNumber,
}
use airflow_kbo.Acquisition.Models.{FetchJob}
use airflow_kbo.Acquisition.Sources.{
  Setting, Adapter, kbo, moniteur, statutes, bnb, source, build_urls, get_adapters, adapters_named,
  adapter_by_name, make_job, kbo_formatted_nummer, kbo_include_profile, jobs_for, and_job,
  kbo_profile_job, kbo_detail_job,
}

abbrev pub IsJobOf : Adapter → String → FetchJob → Type 0
IsJobOf a n job = (job.source ≡ source a) × (job.enterprise_number ≡ n)

module _ ⦃u : Unicode⦄ (w : Setting) where
  abbrev pub HasJobs : Adapter → String → Result (List FetchJob) → Type 0
  HasJobs a n r =
      (jobs : List FetchJob) × (r ≡ ok jobs) × (1 ≤ length jobs) × All (IsJobOf a n) jobs

  module _ (n : String) (h : normalize_enterprise_number n ≡ ok n) where
    and_job-HasJobs :
        (a : Adapter) (r : Result FetchJob) (job : FetchJob) (rest : List FetchJob)
        → r ≡ ok job
        → IsJobOf a n job
        → All (IsJobOf a n) rest
        → HasJobs a n (and_job r (ok rest))
    and_job-HasJobs a r job rest e i k = rw e (job ∷ rest, refl, omega arith, (i, k))

    make_job-eq :
        (url site doc_type : String)
        → make_job url site doc_type n
          ≡ ok (record { url = url; source = site; doc_type = doc_type; enterprise_number = n })
    unfolding make_job
    make_job-eq url site doc_type = rw (h, make_job)

    one_job :
        (a : Adapter) (url doc_type : String)
        → HasJobs a n (and_job (make_job url (source a) doc_type n) (ok []))
    one_job a url doc_type =
        and_job-HasJobs a _ _ [] (make_job-eq url (source a) doc_type) (refl, refl) tt

    profile_job : (job : FetchJob) × (kbo_profile_job w n ≡ ok job) × IsJobOf kbo n job
    unfolding kbo_formatted_nummer
    profile_job = rw (h, kbo_profile_job, kbo_formatted_nummer) (_, make_job-eq _ _ _, (refl, refl))

    detail_job : (job : FetchJob) × (kbo_detail_job w n ≡ ok job) × IsJobOf kbo n job
    detail_job = (_, make_job-eq _ _ _, (refl, refl))

    jobs_for_lem : (a : Adapter) → HasJobs a n (jobs_for w a n)
    jobs_for_lem kbo = elim (Bool-cases (kbo_include_profile w)) [
      | inl e ↦
          let (job, job_ok, i) = profile_job in
          let (job', job'_ok, i') = detail_job in
          rw (e, job'_ok)
            (and_job-HasJobs kbo (kbo_profile_job w n) job (job' ∷ []) job_ok i (i', tt))
      | inr e ↦ rw e (one_job kbo _ _)
    ]
    jobs_for_lem moniteur = one_job moniteur _ _
    jobs_for_lem statutes = elim (Bool-cases (truthy (strip (w.environ "NOTAIRE_STATUTES_URL")))) [
      | inl e ↦ rw e (one_job statutes _ _)
      | inr e ↦ rw e (one_job statutes _ _)
    ]
    jobs_for_lem bnb = one_job bnb _ _

  -- The jobs are for the digits of the number that is given.
  build_urls_ok :
      (a : Adapter) (value : String) {n : String}
      → normalize_enterprise_number value ≡ ok n
      → HasJobs a n (build_urls w a value)
  unfolding build_urls
  build_urls_ok a value {n} h =
      rw (h, build_urls) (jobs_for_lem n (normalize_of_IsNumber n (normalize-IsNumber value h)) a)

-- A name that is no adapter's source.
abbrev pub IsUnknown : String → Type 0
IsUnknown name = (a : Adapter) → source a ≢ name

found-source : (name : String) {a : Adapter} → adapter_by_name name ≡ some a → source a ≡ name
found-source name h =
    grind
      (arith, eq_iff "kbo" name, eq_iff "moniteur" name, eq_iff "statutes" name, eq_iff "bnb" name)

pub source-found : (a : Adapter) → adapter_by_name (source a) ≡ some a
source-found kbo = refl
source-found moniteur = refl
source-found statutes = refl
source-found bnb = refl

lost-IsUnknown : (name : String) → adapter_by_name name ≡ none → IsUnknown name
lost-IsUnknown name h a e = absurd cc (source-found a, h, ap adapter_by_name e)

-- The list is refused, at a name that is no source's.
abbrev IsRefused : List String → Type 0
IsRefused names =
    (adapters_named names ≡ err value_error)
    × ((before : List String) × (name : String) × (after : List String) × (names
          ≡ before ++ name ∷ after)
        × IsUnknown name)

abbrev IsFound : List String → Type 0
IsFound names =
    (found : List Adapter) × (adapters_named names ≡ ok found) × (map source found ≡ names)

cons_lem :
    (name : String) (names : List String) (o : Option Adapter)
    → adapter_by_name name ≡ o
    → IsFound names ⊎ IsRefused names
    → IsFound (name ∷ names) ⊎ IsRefused (name ∷ names)
unfolding adapters_named
cons_lem name names none e rest = inr (rw e, ([], name, names, refl, lost-IsUnknown name e))
cons_lem name names (some a) e (inl (found, is_ok, same)) =
    inl (a ∷ found, rw (e, is_ok), cc (found-source name e, same))
cons_lem name names (some a) e (inr (is_err, (before, bad, after, split, i))) =
    inr (rw (e, is_err), (name ∷ before, bad, after, ap (λ l. name ∷ l) split, i))

adapters_named-cases : (names : List String) → IsFound names ⊎ IsRefused names
unfolding adapters_named
adapters_named-cases [] = inl ([], refl, refl)
adapters_named-cases (name ∷ names) =
    cons_lem name names (adapter_by_name name) refl (adapters_named-cases names)

module _ ⦃u : Unicode⦄ (w : Setting) where
  -- A list of names gives the adapters of these names in the order of the list, each of which then
  -- builds at least one job for a value with ten digits, and only jobs of its own source for the
  -- normalised number; unless a name of the list is not the source of any adapter, and then a
  -- value error is raised.
  pub get_adapters_lem :
      (names : List String) (value : String) {n : String}
      → normalize_enterprise_number value ≡ ok n
      → ((found : List Adapter) × (get_adapters w (some names) ≡ ok found)
          × (map source found ≡ names)
          × All (λ a. HasJobs w a n (build_urls w a value)) found)
        ⊎ ((get_adapters w (some names) ≡ err value_error)
            × ((before : List String) × (name : String) × (after : List String) × (names
                  ≡ before ++ name ∷ after)
                × IsUnknown name))
  unfolding get_adapters
  get_adapters_lem names value h = elim (adapters_named-cases names) [
    | inl (found, is_ok, same) ↦
        inl (found, is_ok, same, All-each _ (λ a. build_urls_ok w a value h) found)
    | inr refused ↦ inr refused
  ]
