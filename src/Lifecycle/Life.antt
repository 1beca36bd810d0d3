-- ===== src/Lifecycle/Life.antt =====
-- packages/lifecycle follows the graph of the processing states: a tick puts structured and failed
-- enterprises back on the scrape queue.
use airflow_kbo.Prelude.{
  ℕ, ◌+◌, String, ◌≡◌, refl, Bool, true, false, Option, none, some, List, [], ◌∷◌, Bool-cases, inl,
  inr, All-append, keep, ◌==◌, length,
}
use airflow_kbo.Text.{Unicode}
use airflow_kbo.Action.{Action, Result, ok, pure, lift, ◌>>=◌, ◌>>◌}
use airflow_kbo.Payload.{Value, get}
use airflow_kbo.Persistence.Enums.{ProcessingState, queued_scrape, structured, state_eq}
use airflow_kbo.Persistence.Session.{
  Session, StateRow, Snapshot, HistoryRow, find_state, is_known, IsSound, utc_now,
}
use airflow_kbo.Persistence.Repositories.{transition_state}
use airflow_kbo.Persistence.Life.{◌⟶◌, rescrape, retry_scrape, retry_parse, Evolves, Evolves-refl}
use airflow_kbo.Persistence.Life.Steps.{
  Lives, Lives-bind, pure-Lives, Evolves-same, transition_state-Lives,
}
use airflow_kbo.Persistence.Life.Writes.{utc_now-Lives}
use airflow_kbo.Discovery.{newest_first}
use airflow_kbo.Lifecycle.{
  insert_history, append_business_status, record_from, record_business_status_from_snapshot,
  is_of_day, latest_row, label_of, map_status_label, kbo_fields_from_payload,
}
use airflow_kbo.Lifecycle.Scheduler.{
  LifecycleReport, is_failed_state, select_due_enterprises, one_if, requeue, tick_one, tick_all,
  lifecycle_tick,
}

failed_edge : (p : ProcessingState) → is_failed_state p ≡ true → some p ⟶ some queued_scrape
failed_edge ProcessingState.failed_scrape h = retry_scrape
failed_edge ProcessingState.failed_parse h = retry_parse
failed_edge ProcessingState.new h = absurd cc
failed_edge ProcessingState.queued_scrape h = absurd cc
failed_edge ProcessingState.scraping h = absurd cc
failed_edge ProcessingState.raw_stored h = absurd cc
failed_edge ProcessingState.queued_parse h = absurd cc
failed_edge ProcessingState.parsing h = absurd cc
failed_edge ProcessingState.structured h = absurd cc
failed_edge ProcessingState.failed_validate h = absurd cc

module _ ⦃u : Unicode⦄ where
  insert_history-Lives : (r : HistoryRow) → Lives (insert_history r)
  unfolding insert_history
  insert_history-Lives r s sound = elim (Bool-cases (is_known r.enterprise_number s)) [
    | inr unknown ↦ rw unknown (sound, Evolves-refl s)
    | inl there ↦ rw there (
      record {
        unique_enterprises = sound.unique_enterprises;
        unique_states = sound.unique_states;
        tracked = sound.tracked;
        numbers = sound.numbers;
        documents_known = sound.documents_known;
        snapshots_known = sound.snapshots_known;
        discoveries_known = sound.discoveries_known;
        history_known =
            All-append (λ x. is_known x.enterprise_number s ≡ true) s.history _ sound.history_known
              (there, tt);
      },
      Evolves-same s _ refl,
    )
  ]

  append_business_status-Lives :
      (number status : String) (status_label legal_form : Value)
      → Lives (append_business_status number status status_label legal_form)
  unfolding append_business_status
  append_business_status-Lives number status status_label legal_form =
      let row : ℕ → HistoryRow = λ now. record {
        enterprise_number = number;
        business_status = status;
        status_label = status_label;
        legal_form = legal_form;
        recorded_at = now;
      } in
      let write : Action Session Bool = utc_now >>= λ now. insert_history (row now) >> pure true in
      let write-Lives : Lives write =
        Lives-bind utc_now (λ now. insert_history (row now) >> pure true) utc_now-Lives
          (λ now.
            Lives-bind (insert_history (row now)) (λ done. pure true)
              (insert_history-Lives (row now)) (λ done. pure-Lives (ok true))) in
      Lives-bind {A = ℕ} {B = Bool} utc_now
        (λ today s. elim (is_of_day today (latest_row number status s.history)) [
          | true ↦ (ok false, s)
          | false ↦ write s
        ])
        utc_now-Lives
        (λ today s sound.
          elim (is_of_day today (latest_row number status s.history))
            as (λ b.
              let out : Result Bool × Session = elim b [ true ↦ (ok false, s) | false ↦ write s ] in
              IsSound out.1 × Evolves s out.1) [
                | true ↦ (sound, Evolves-refl s)
                | false ↦ write-Lives s sound
              ])

  record_from-Lives : (number : String) (snaps : List Snapshot) → Lives (record_from number snaps)
  unfolding record_from
  record_from-Lives number [] = pure-Lives (ok false)
  record_from-Lives number (snap ∷ older) =
      let field : String → Value = λ key. get key (kbo_fields_from_payload snap.payload) in
      Lives-bind {A = Option String} {B = Bool} (lift (label_of (field "status_label")))
        (λ label.
          append_business_status number (map_status_label label) (field "status_label")
            (field "legal_form"))
        (pure-Lives (label_of (field "status_label")))
        (λ label.
          append_business_status-Lives number (map_status_label label) (field "status_label")
            (field "legal_form"))

  record_business_status-Lives :
      (number : String) → Lives (record_business_status_from_snapshot number)
  unfolding record_business_status_from_snapshot
  record_business_status-Lives number s sound =
      record_from-Lives number
        (newest_first (keep (λ (x : Snapshot). x.enterprise_number == number) s.snapshots)) s sound

  put_back-Lives :
      (number : String) (p : ProcessingState)
      → some p ⟶ some queued_scrape
      → Lives {A = ℕ} (transition_state number p queued_scrape none none >> pure 1)
  put_back-Lives number p edge =
      Lives-bind {A = StateRow} {B = ℕ} (transition_state number p queued_scrape none none)
        (λ row. pure 1) (transition_state-Lives number p queued_scrape none none edge)
        (λ row. pure-Lives {A = ℕ} (ok 1))

  requeue-Lives : (number : String) (row : StateRow) → Lives (requeue number row)
  unfolding requeue
  requeue-Lives number row = elim (Bool-cases (state_eq row.state structured)) [
    | inl is_structured ↦ rw is_structured (put_back-Lives number structured rescrape)
    | inr other ↦ elim (Bool-cases (is_failed_state row.state)) [
      | inl failed ↦
          rw other (rw failed (put_back-Lives number row.state (failed_edge row.state failed)))
      | inr stays ↦ rw other (rw stays (pure-Lives {A = ℕ} (ok 0)))
    ]
  ]

  tick_one-Lives : (number : String) (row : Option StateRow) → Lives (tick_one number row)
  unfolding tick_one
  tick_one-Lives number none = pure-Lives {A = ℕ × ℕ} (ok (0, 0))
  tick_one-Lives number (some row) =
      Lives-bind {A = ℕ} {B = ℕ × ℕ} (requeue number row)
        (λ queued.
          record_business_status_from_snapshot number >>= λ updated. pure (queued, one_if updated))
        (requeue-Lives number row)
        (λ queued.
          Lives-bind {A = Bool} {B = ℕ × ℕ} (record_business_status_from_snapshot number)
            (λ updated. pure (queued, one_if updated)) (record_business_status-Lives number)
            (λ updated. pure-Lives {A = ℕ × ℕ} (ok (queued, one_if updated))))

  tick_all-Lives :
      (numbers : List String) (queued statuses : ℕ) → Lives (tick_all numbers queued statuses)
  unfolding tick_all
  tick_all-Lives [] queued statuses s sound = (sound, Evolves-refl s)
  tick_all-Lives (number ∷ numbers) queued statuses s sound =
      Lives-bind {A = ℕ × ℕ} {B = ℕ × ℕ} (tick_one number (find_state number s))
        (λ n. tick_all numbers (queued + n.0) (statuses + n.1))
        (tick_one-Lives number (find_state number s))
        (λ n. tick_all-Lives numbers (queued + n.0) (statuses + n.1)) s sound

  select_due-Lives : (max_age_days limit : ℕ) → Lives (select_due_enterprises max_age_days limit)
  unfolding select_due_enterprises
  select_due-Lives max_age_days limit s sound = utc_now-Lives s sound

  pub lifecycle_tick-Lives : (max_age_days limit : ℕ) → Lives (lifecycle_tick max_age_days limit)
  unfolding lifecycle_tick
  lifecycle_tick-Lives max_age_days limit =
      let report : List String → ℕ × ℕ → LifecycleReport =
        λ due n. record { due_selected = length due; queued = n.0; statuses_updated = n.1 } in
      Lives-bind {A = List String} {B = LifecycleReport} (select_due_enterprises max_age_days limit)
        (λ due. tick_all due 0 0 >>= λ n. pure (report due n)) (select_due-Lives max_age_days limit)
        (λ due.
          Lives-bind {A = ℕ × ℕ} {B = LifecycleReport} (tick_all due 0 0) (λ n. pure (report due n))
            (tick_all-Lives due 0 0) (λ n. pure-Lives (ok (report due n))))
