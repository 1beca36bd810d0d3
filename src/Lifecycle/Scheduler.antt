-- ===== src/Lifecycle/Scheduler.antt =====
-- packages/lifecycle/scheduler.py: which enterprises are due for another scrape, and the tick that
-- puts them back on the queue.
use airflow_kbo.Prelude.{
  ℕ, ◌+◌, ◌-◌, ◌*◌, String, Bool, true, false, ◌&&◌, Option, none, some, List, [], ◌∷◌, map, take,
  ◌==◌, if◌then◌else◌, leb, ltb, max, length,
}
use airflow_kbo.Text.{Unicode}
use airflow_kbo.Action.{Action, ok, pure, ◌>>=◌, ◌>>◌}
use airflow_kbo.Persistence.Enums.{
  ProcessingState, queued_scrape, structured, failed_scrape, failed_parse, state_eq,
}
use airflow_kbo.Persistence.Session.{Session, StateRow, RawDocument, find_state, utc_now}
use airflow_kbo.Persistence.Repositories.{transition_state}
use airflow_kbo.Lifecycle.{record_business_status_from_snapshot}

pub record LifecycleReport : Type 0 where
  pub due_selected : ℕ
  pub queued : ℕ
  pub statuses_updated : ℕ

-- The states that the query selects.
abbrev pub is_due_state : ProcessingState → Bool
is_due_state structured = true
is_due_state failed_scrape = true
is_due_state failed_parse = true
is_due_state _ = false

abbrev pub is_failed_state : ProcessingState → Bool
is_failed_state failed_scrape = true
is_failed_state failed_parse = true
is_failed_state _ = false

abbrev pub later_of : ℕ → Option ℕ → Option ℕ
later_of t none = some t
later_of t (some x) = some (max t x)

-- SELECT max(scraped_at) … WHERE download_status = 'SUCCESS' GROUP BY enterprise_number
unfoldable pub last_scrape : String → List RawDocument → Option ℕ
last_scrape number [] = none
last_scrape number (d ∷ docs) =
    let rest = last_scrape number docs in
    if d.enterprise_number == number && d.download_status == "SUCCESS"
    then later_of d.scraped_at rest
    else rest

-- The row of the join: the number with its last scrape, if the enterprise is due.
abbrev pub add_due : ℕ → StateRow → Option ℕ → List (ℕ × String) → List (ℕ × String)
add_due cutoff r none rest = rest
add_due cutoff r (some t) rest =
    if ltb t cutoff && is_due_state r.state then (t, r.enterprise_number) ∷ rest else rest

unfoldable pub due_rows : ℕ → List RawDocument → List StateRow → List (ℕ × String)
unfolding last_scrape
due_rows cutoff docs [] = []
due_rows cutoff docs (r ∷ rows) =
    add_due cutoff r (last_scrape r.enterprise_number docs) (due_rows cutoff docs rows)

-- ORDER BY last_scrape
unfoldable pub insert_due : ℕ × String → List (ℕ × String) → List (ℕ × String)
insert_due x [] = x ∷ []
insert_due x (y ∷ rows) = if leb x.0 y.0 then x ∷ y ∷ rows else y ∷ insert_due x rows

unfoldable pub order_due : List (ℕ × String) → List (ℕ × String)
unfolding insert_due
order_due [] = []
order_due (x ∷ rows) = insert_due x (order_due rows)

-- datetime.now(UTC) - timedelta(days=days)
abbrev pub days_before : ℕ → ℕ → ℕ
days_before days now = now - days * 86_400_000_000

abbrev pub due_number : ℕ × String → String
due_number x = x.1

unfoldable pub select_due_enterprises : ℕ → ℕ → Action Session (List String)
unfolding due_rows order_due
select_due_enterprises max_age_days limit = do
  now ← utc_now
  λ s. (
    ok (
        map due_number
          (take limit (order_due (due_rows (days_before max_age_days now) s.documents s.states)))),
    s,
  )

abbrev pub one_if : Bool → ℕ
one_if true = 1
one_if false = 0

module _ ⦃u : Unicode⦄ where
  -- How many were put on the queue: one or none.
  unfoldable pub requeue : String → StateRow → Action Session ℕ
  requeue number row =
      if state_eq row.state structured
      then (transition_state number structured queued_scrape none none >> pure 1)
      else if is_failed_state row.state
      then (transition_state number row.state queued_scrape none none >> pure 1)
      else pure 0

  -- One turn of the loop: the two counters.
  unfoldable pub tick_one : String → Option StateRow → Action Session (ℕ × ℕ)
  unfolding requeue
  tick_one number none = pure (0, 0)
  tick_one number (some row) = do
    queued ← requeue number row
    updated ← record_business_status_from_snapshot number
    pure (queued, one_if updated)

  unfoldable pub tick_all : List String → ℕ → ℕ → Action Session (ℕ × ℕ)
  unfolding tick_one
  tick_all [] queued statuses s = (ok (queued, statuses), s)
  tick_all (number ∷ numbers) queued statuses s =
      (tick_one number (find_state number s) >>= λ n.
      tick_all numbers (queued + n.0) (statuses + n.1))
        s

  unfoldable pub lifecycle_tick : ℕ → ℕ → Action Session LifecycleReport
  unfolding select_due_enterprises tick_all
  lifecycle_tick max_age_days limit = do
    due ← select_due_enterprises max_age_days limit
    n ← tick_all due 0 0
    pure (record { due_selected = length due; queued = n.0; statuses_updated = n.1 })
