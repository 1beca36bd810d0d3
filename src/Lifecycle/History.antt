-- ===== src/Lifecycle/History.antt =====
-- packages/lifecycle/status.py: the history of business statuses only grows, by a row a day at most.
use airflow_kbo.Prelude.{
  ℕ, suc, ◌≤◌, String, ◌≡◌, refl, Bool, true, false, ◌&&◌, Option, none, some, List, [], ◌∷◌, ◌++◌,
  arith, ◌==◌, eq_iff, Bool-cases, inl, inr, All, sym, ◌∙◌, nat_eq_iff,
}
use airflow_kbo.Action.{ok}
use airflow_kbo.Payload.{Value}
use airflow_kbo.Persistence.Session.{Session, HistoryRow, is_known}
use airflow_kbo.Lifecycle.{day, latest_row, is_of_day, insert_history, append_business_status}

-- The row that is appended; `datetime.now` is asked once for the day and once for the row.
abbrev pub new_row : String → String → Value → Value → Session → HistoryRow
new_row number status status_label legal_form s = record {
  enterprise_number = number;
  business_status = status;
  status_label = status_label;
  legal_form = legal_form;
  recorded_at = s.clock (suc s.ticks);
}

abbrev pub has_today : String → String → Session → Bool
has_today number status s = is_of_day (s.clock s.ticks) (latest_row number status s.history)

-- With a latest row of the same day nothing is written; otherwise one row is appended.
pub append_business_status_lem :
    (number status : String) (status_label legal_form : Value) (s : Session)
    → is_known number s ≡ true
    → ((has_today number status s ≡ true)
        → append_business_status number status status_label legal_form s
          ≡ (ok false, record s { ticks = suc s.ticks }))
      × ((has_today number status s ≡ false)
          → append_business_status number status status_label legal_form s ≡ (
            ok true,
            record s {
              ticks = suc (suc s.ticks);
              history = s.history ++ new_row number status status_label legal_form s ∷ [];
            },
          ))
unfolding append_business_status insert_history latest_row
append_business_status_lem number status status_label legal_form s known = (
  (λ today. rw (today, append_business_status) refl),
  λ first. rw (first, append_business_status) (rw known refl),
)

is_of_day-same : (a b : ℕ) (o : Option HistoryRow) → day a ≡ day b → is_of_day a o ≡ is_of_day b o
is_of_day-same a b none e = refl
is_of_day-same a b (some r) e = rw e refl

-- A row of the number and the status that is not older than the others is the latest.
latest_row-append :
    (number status : String) (rows : List HistoryRow) (r : HistoryRow)
    → (r.enterprise_number == number && r.business_status == status) ≡ true
    → All (λ (x : HistoryRow). suc x.recorded_at ≤ r.recorded_at) rows
    → latest_row number status (rows ++ r ∷ []) ≡ some r
unfolding latest_row
latest_row-append number status [] r hit older = rw (hit, latest_row) refl
latest_row-append number status (x ∷ rows) r hit older =
    rw (latest_row-append number status rows r hit older.1) (ground (arith, older.0))

-- Within one day of the clock the same status is recorded once: a second call appends nothing.
pub append_business_status_idem :
    (number status : String) (status_label legal_form : Value) (s : Session)
    → is_known number s ≡ true
    → ((n : ℕ) → day (s.clock n) ≡ day (s.clock 0))
    → All (λ (x : HistoryRow). suc x.recorded_at ≤ s.clock (suc s.ticks)) s.history
    → let s' = (append_business_status number status status_label legal_form s).1 in
      let again = append_business_status number status status_label legal_form s' in
      (again.0 ≡ ok false) × (again.1.history ≡ s'.history)
append_business_status_idem number status status_label legal_form s known one_day older =
    let row = new_row number status status_label legal_form s in
    let same : (m n : ℕ) → day (s.clock m) ≡ day (s.clock n) = λ m n. one_day m ∙ sym (one_day n) in
    elim (Bool-cases (has_today number status s)) [
      | inl today ↦
          let s' : Session = record s { ticks = suc s.ticks } in
          let still : has_today number status s' ≡ true =
            is_of_day-same _ _ (latest_row number status s.history) (same (suc s.ticks) s.ticks)
            ∙ today in
          rw ((append_business_status_lem number status status_label legal_form s known).0 today) (
            rw ((append_business_status_lem number status status_label legal_form s' known).0 still)
              (refl, refl))
      | inr first ↦
          let s' : Session = record s {
            ticks = suc (suc s.ticks);
            history = s.history ++ row ∷ [];
          } in
          let latest : latest_row number status s'.history ≡ some row =
            latest_row-append number status s.history row
              (ground (arith, eq_iff number number, eq_iff status status)) older in
          let now_today : has_today number status s' ≡ true =
            rw latest ((nat_eq_iff _ _).1 (same (suc s.ticks) (suc (suc s.ticks)))) in
          rw ((append_business_status_lem number status status_label legal_form s known).1 first) (
            rw
              ((append_business_status_lem number status status_label legal_form s' known).0
                now_today)
              (refl, refl))
    ]
