-- ===== src/Acquisition/Finalize/Tally.antt =====
-- worker.py, `finalize_scrape_for_enterprises`: the report on a list of enterprises.
use airflow_kbo.Prelude.{
  String, ◌≡◌, refl, sym, ap, subst, ◌∙◌, Bool, true, false, not, List, [], ◌∷◌, ◌++◌, map, length,
  count_if, count_if-append, arith,
}
use airflow_kbo.Text.{Unicode}
use airflow_kbo.Action.{Result, ok, err, state_transition_error, and_then-eq-ok}
use airflow_kbo.Persistence.Session.{Session, StateRow, IsSound}
use airflow_kbo.Acquisition.Finalize.{
  Finalized, to_parse, incomplete, refused, missing_sources, caught, FinalizeReport, count_entry,
  finalize_one, finalize_all, finalize_scrape_for_enterprises,
}
use airflow_kbo.Acquisition.Finalize.Laws.{finalize_scrape_for_enterprises_lem}

abbrev pub entry_number : Finalized → String
entry_number (to_parse number) = number
entry_number (incomplete number missing) = number
entry_number (refused number) = number

abbrev pub is_complete : Finalized → Bool
is_complete (to_parse number) = true
is_complete _ = false

-- The counts are those of the entries.
abbrev pub IsTallied : FinalizeReport → Type 0
IsTallied r =
    (r.succeeded ≡ count_if is_complete r.enterprises)
    × (r.failed ≡ count_if (λ e. not (is_complete e)) r.enterprises)

count_entry-IsTallied :
    (e : Finalized) (r : FinalizeReport) → IsTallied r → IsTallied (count_entry e r)
count_entry-IsTallied (to_parse number) r (a, b) =
    let e = to_parse number ∷ [] in
    (
      omega (arith, a, count_if-append is_complete r.enterprises e),
      omega (arith, b, count_if-append (λ x. not (is_complete x)) r.enterprises e),
    )
count_entry-IsTallied (incomplete number missing) r (a, b) =
    let e = incomplete number missing ∷ [] in
    (
      omega (arith, a, count_if-append is_complete r.enterprises e),
      omega (arith, b, count_if-append (λ x. not (is_complete x)) r.enterprises e),
    )
count_entry-IsTallied (refused number) r (a, b) =
    let e = refused number ∷ [] in
    (
      omega (arith, a, count_if-append is_complete r.enterprises e),
      omega (arith, b, count_if-append (λ x. not (is_complete x)) r.enterprises e),
    )

count_entry-entries :
    (e : Finalized) (r : FinalizeReport) → (count_entry e r).enterprises ≡ r.enterprises ++ e ∷ []
count_entry-entries (to_parse number) r = refl
count_entry-entries (incomplete number missing) r = refl
count_entry-entries (refused number) r = refl

append_nil : (xs : List String) → xs ++ [] ≡ xs
append_nil [] = refl
append_nil (x ∷ xs) = ap (λ l. x ∷ l) (append_nil xs)

names-append :
    (es : List Finalized) (e : Finalized) (numbers : List String)
    → map entry_number (es ++ e ∷ []) ++ numbers ≡ map entry_number es ++ entry_number e ∷ numbers
names-append [] e numbers = refl
names-append (x ∷ es) e numbers = ap (λ l. entry_number x ∷ l) (names-append es e numbers)

numbers_after :
    (e : Finalized) (r : FinalizeReport) (number : String) (numbers : List String)
    → entry_number e ≡ number
    → map entry_number (count_entry e r).enterprises ++ numbers
      ≡ map entry_number r.enterprises ++ number ∷ numbers
numbers_after e r number numbers h =
    ap (λ es. map entry_number es ++ numbers) (count_entry-entries e r)
    ∙ names-append r.enterprises e numbers
    ∙ ap (λ n. map entry_number r.enterprises ++ n ∷ numbers) h

-- The number of an entry that is answered.
abbrev named : String → Result Finalized → String
named number (ok e) = entry_number e
named number (err x) = number

caught-named :
    (number : String) (missing : List String) (r : Result StateRow)
    → named number (caught number missing r) ≡ number
caught-named number [] (ok row) = refl
caught-named number (m ∷ ms) (ok row) = refl
caught-named number missing (err state_transition_error) = refl
caught-named number missing (err _) = refl

module _ ⦃u : Unicode⦄ where
  finalize_one-named :
      (sources : List String) (worker_id number : String) (s : Session) {e : Finalized}
      → (finalize_one sources worker_id number s).0 ≡ ok e
      → entry_number e ≡ number
  unfolding finalize_one
  finalize_one-named sources worker_id number s h =
      sym (ap (named number) h) ∙ caught-named number (missing_sources number sources s) _

  -- The entries of more numbers, in their order, and the counts.
  abbrev Reports : List String → FinalizeReport → FinalizeReport → Type 0
  Reports numbers r r' =
      IsTallied r' × (map entry_number r'.enterprises ≡ map entry_number r.enterprises ++ numbers)

  finalize_all-Reports :
      (sources : List String) (worker_id : String) (numbers : List String)
      (report report' : FinalizeReport) (s : Session)
      → IsTallied report
      → (finalize_all sources worker_id numbers report s).0 ≡ ok report'
      → Reports numbers report report'
  unfolding finalize_all
  finalize_all-Reports sources worker_id [] report report' s t e =
      let same : report ≡ report' = cc in
      subst (Reports [] report) same (t, sym (append_nil (map entry_number report.enterprises)))
  finalize_all-Reports sources worker_id (number ∷ numbers) report report' s t e =
      let one = finalize_one sources worker_id number s in
      let (entry, f, rest) = and_then-eq-ok one.0 _ one.1 e in
      let (t', named_all) =
        finalize_all-Reports sources worker_id numbers (count_entry entry report) report' one.1
          (count_entry-IsTallied entry report t) rest in
      (
        t',
        named_all
            ∙ numbers_after entry report number numbers
                (finalize_one-named sources worker_id number s f),
      )

  -- A finalisation leaves the database sound. When it returns, its report has one entry for each
  -- number, in the order of the numbers; the successes are counted as the entries that are complete,
  -- and the failures as the other ones.
  pub finalize_scrape_for_enterprises-Reports :
      (sources : List String) (worker_id : String) (numbers : List String) (s : Session)
      → IsSound s
      → let (r, s') = finalize_scrape_for_enterprises sources worker_id numbers s in
        IsSound s'
        × ((report : FinalizeReport)
            → r ≡ ok report
            → (map entry_number report.enterprises ≡ numbers)
              × (report.finalized ≡ length numbers)
              × IsTallied report)
  unfolding finalize_scrape_for_enterprises
  finalize_scrape_for_enterprises-Reports sources worker_id numbers s sound =
      let start : FinalizeReport = record {
        finalized = length numbers;
        succeeded = 0;
        failed = 0;
        enterprises = [];
      } in
      let (sound', counts) =
        finalize_scrape_for_enterprises_lem sources worker_id numbers s sound in
      (
        sound',
        λ report e.
            let (tallied, entries) =
              finalize_all-Reports sources worker_id numbers start report s (refl, refl) e in
            (entries, (counts report e).1, tallied),
      )
