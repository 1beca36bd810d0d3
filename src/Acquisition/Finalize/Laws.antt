-- ===== src/Acquisition/Finalize/Laws.antt =====
-- worker.py: what `finalize_scrape_for_enterprises` decides for each enterprise.
use airflow_kbo.Prelude.{
  ℕ, ◌+◌, String, ◌≡◌, ◌≢◌, refl, true, none, some, List, [], ◌∷◌, length, arith, All, Bool-cases,
  inl, inr, ◌↔◌, subst, ◌∙◌, length-append,
}
use airflow_kbo.Text.{Unicode}
use airflow_kbo.Action.{ok, Keeps, Keeps-bind, and_then-eq-ok}
use airflow_kbo.Storage.Paths.{normalize_enterprise_number}
use airflow_kbo.Persistence.Enums.{scraping}
use airflow_kbo.Persistence.Session.{Session, StateRow, find_state, IsSound}
use airflow_kbo.Persistence.Repositories.Transition.{
  row_after, transition_state_lem, transition_state_refused, transition_state-IsSound, find-after,
}
use airflow_kbo.Acquisition.Finalize.{
  has_success, missing_sources, Finalized, to_parse, incomplete, refused, target_of, entry_of,
  FinalizeReport, count_entry, finalize_one, finalize_all, finalize_scrape_for_enterprises,
}

-- No source is missing exactly when each one has a document that was downloaded.
pub missing_sources_lem :
    (number : String) (sources : List String) (s : Session)
    → (missing_sources number sources s ≡ [])
      ↔ All (λ source. has_success number source s ≡ true) sources
unfolding missing_sources
missing_sources_lem number [] s = ((λ e. tt), λ a. refl)
missing_sources_lem number (source ∷ sources) s =
    let (to, from) = missing_sources_lem number sources s in
    elim (Bool-cases (has_success number source s)) [
      | inl here ↦ rw here ((λ e. (refl, to e)), λ a. from a.1)
      | inr gone ↦ rw gone ((λ e. absurd cc), λ a. absurd cc)
    ]

module _ ⦃u : Unicode⦄ where
  pub finalize_one_lem :
      (sources : List String) (worker_id raw number : String) (row : StateRow) (s : Session)
      → IsSound s
      → normalize_enterprise_number raw ≡ ok number
      → find_state number s ≡ some row
      → row.state ≡ scraping
      → let (r, s') = finalize_one sources worker_id raw s in
        let target = target_of (missing_sources raw sources s) in
        (r ≡ ok (entry_of raw (missing_sources raw sources s)))
        × (find_state number s'
            ≡ some (row_after row target (some worker_id) none (s.clock s.ticks)))
  unfolding finalize_one
  finalize_one_lem sources worker_id raw number row s sound n found here =
      let target = target_of (missing_sources raw sources s) in
      rw
        (transition_state_lem raw number row scraping target (some worker_id) none s sound n found
          here)
        (refl, find-after number row scraping target (some worker_id) none s found here)

  -- An enterprise that is not registered or is not being scraped is reported as refused, and nothing
  -- is written.
  pub finalize_one_refused :
      (sources : List String) (worker_id raw number : String) (s : Session)
      → normalize_enterprise_number raw ≡ ok number
      → ((row : StateRow) → find_state number s ≡ some row → row.state ≢ scraping)
      → finalize_one sources worker_id raw s ≡ (ok (refused raw), s)
  unfolding finalize_one
  finalize_one_refused sources worker_id raw number s n other =
      rw
        (transition_state_refused raw number scraping (target_of (missing_sources raw sources s))
          (some worker_id) none s n other)
        refl

  finalize_one-IsSound :
      (sources : List String) (worker_id number : String)
      → Keeps IsSound (finalize_one sources worker_id number)
  unfolding finalize_one
  finalize_one-IsSound sources worker_id number s sound =
      transition_state-IsSound number scraping (target_of (missing_sources number sources s))
        (some worker_id) none s sound

  finalize_all-IsSound :
      (sources : List String) (worker_id : String) (numbers : List String) (report : FinalizeReport)
      → Keeps IsSound (finalize_all sources worker_id numbers report)
  unfolding finalize_all
  finalize_all-IsSound sources worker_id [] report = λ s sound. sound
  finalize_all-IsSound sources worker_id (number ∷ numbers) report =
      Keeps-bind IsSound (finalize_one sources worker_id number) _
        (finalize_one-IsSound sources worker_id number)
        (λ entry. finalize_all-IsSound sources worker_id numbers (count_entry entry report))

  Adds : ℕ → FinalizeReport → FinalizeReport → Type 0
  Adds n r r' =
      (r'.finalized ≡ r.finalized)
      × (r'.succeeded + r'.failed ≡ r.succeeded + r.failed + n)
      × (length r'.enterprises ≡ length r.enterprises + n)

  count_entry_lem : (e : Finalized) (r : FinalizeReport) → Adds 1 r (count_entry e r)
  unfolding Adds
  count_entry_lem (to_parse number) r =
      (refl, omega arith, omega (arith, length-append r.enterprises (to_parse number ∷ [])))
  count_entry_lem (incomplete number missing) r = (
    refl,
    omega arith,
    omega (arith, length-append r.enterprises (incomplete number missing ∷ [])),
  )
  count_entry_lem (refused number) r =
      (refl, omega arith, omega (arith, length-append r.enterprises (refused number ∷ [])))

  finalize_all_lem :
      (sources : List String) (worker_id : String) (numbers : List String)
      (report report' : FinalizeReport) (s : Session)
      → (finalize_all sources worker_id numbers report s).0 ≡ ok report'
      → Adds (length numbers) report report'
  unfolding finalize_all Adds
  finalize_all_lem sources worker_id [] report report' s e =
      let same : report ≡ report' = cc in
      subst (Adds 0 report) same (refl, omega arith, omega arith)
  finalize_all_lem sources worker_id (number ∷ numbers) report report' s e =
      let one = finalize_one sources worker_id number s in
      let (entry, f, rest) = and_then-eq-ok one.0 _ one.1 e in
      let (same, counts, entries) = count_entry_lem entry report in
      let (same', counts', entries') =
        finalize_all_lem sources worker_id numbers (count_entry entry report) report' one.1 rest in
      (same' ∙ same, omega (arith, counts, counts'), omega (arith, entries, entries'))

  pub finalize_scrape_for_enterprises_lem :
      (sources : List String) (worker_id : String) (numbers : List String) (s : Session)
      → IsSound s
      → let (r, s') = finalize_scrape_for_enterprises sources worker_id numbers s in
        IsSound s'
        × ((report : FinalizeReport)
            → r ≡ ok report
            → (report.succeeded + report.failed ≡ report.finalized)
              × (report.finalized ≡ length numbers)
              × (length report.enterprises ≡ length numbers))
  unfolding finalize_scrape_for_enterprises Adds
  finalize_scrape_for_enterprises_lem sources worker_id numbers s sound =
      let start : FinalizeReport = record {
        finalized = length numbers;
        succeeded = 0;
        failed = 0;
        enterprises = [];
      } in
      (
        finalize_all-IsSound sources worker_id numbers start s sound,
        λ report e.
            let (same, counts, entries) =
              finalize_all_lem sources worker_id numbers start report s e in
            (omega (arith, same, counts), same, omega (arith, entries)),
      )
