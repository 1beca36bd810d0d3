-- ===== src/Persistence/Repositories.antt =====
-- packages/persistence/repositories.py: the operations, and in the modules below their laws.
pub mod Transition
pub mod Upsert
pub mod Queue
pub mod Claims
pub mod Oldest
use airflow_kbo.Prelude.{
  ℕ, suc, ◌+◌, ◌*◌, ◌≤◌, String, ◌≡◌, Bool, true, false, ◌&&◌, ◌||◌, not, Option, none, some, List,
  [], ◌∷◌, ◌++◌, map, ◌==◌, if◌then◌else◌, count_if, keep, find, take, leb, nat_eq, any,
}
use airflow_kbo.Text.{Unicode}
use airflow_kbo.Action.{
  Action, Result, ok, err, pure, raise, lift, ◌>>=◌, ◌>>◌, for_each, state_transition_error,
  enterprise_not_found,
}
use airflow_kbo.Payload.{Payload}
use airflow_kbo.Storage.Paths.{normalize_enterprise_number}
use airflow_kbo.Persistence.Enums.{
  SeedSource, discovered, ProcessingState, new, queued_scrape, scraping, queued_parse, parsing,
  RawDocumentStatus, state_eq,
}
use airflow_kbo.Persistence.Table.{update_where}
use airflow_kbo.Persistence.Session.{
  Session, Enterprise, StateRow, RawDocument, Snapshot, Discovery, utc_now, find_enterprise,
  find_state, insert_enterprise, insert_state, state_key,
}

-- The row that a new enterprise gets: `version` has the default 1, no lock is held.
abbrev pub fresh_state : String → ProcessingState → ℕ → StateRow
fresh_state number state now = record {
  enterprise_number = number;
  state = state;
  state_since = now;
  lock_owner = none;
  lock_until = none;
  updated_at = now;
  version = 1;
}

unfoldable pub create_enterprise : String → SeedSource → ProcessingState → Action Session Enterprise
unfolding insert_enterprise insert_state
create_enterprise number source initial = do
  let enterprise : Enterprise = record { enterprise_number = number; seed_source = source }
  insert_enterprise enterprise
  now ← utc_now
  insert_state (fresh_state number initial now)
  pure enterprise

-- SELECT … FOR UPDATE, and the two tests that follow it.
unfoldable pub read_for_transition : String → ProcessingState → Action Session StateRow
read_for_transition number expected s = elim (find_state number s) [
  | none ↦ (err state_transition_error, s)
  | some row ↦ if state_eq row.state expected then (ok row, s) else (err state_transition_error, s)
]

-- The WHERE clause of the UPDATE: the key, the version that was read, the expected state.
abbrev pub is_target : String → StateRow → ProcessingState → StateRow → Bool
is_target number row expected r =
    r.enterprise_number == number && (nat_eq r.version row.version && state_eq r.state expected)

abbrev pub moved : StateRow → ProcessingState → Option String → Option ℕ → ℕ → StateRow → StateRow
moved row target owner until now r = record r {
  state = target;
  state_since = now;
  updated_at = now;
  lock_owner = owner;
  lock_until = until;
  version = row.version + 1;
}

-- UPDATE … WHERE, the test of `rowcount`, and the refresh of the row.
unfoldable pub write_transition :
    String
    → StateRow
    → ProcessingState
    → ProcessingState
    → Option String
    → Option ℕ
    → Action Session StateRow
write_transition number row expected target owner until = do
  now ← utc_now
  λ s.
      let hit = is_target number row expected in
      let after = record s {
        states = update_where state_key hit (moved row target owner until now) s.states;
      } in
      if nat_eq (count_if hit s.states) 1
      then (elim (find_state number after) [
        | none ↦ (err state_transition_error, after)
        | some fresh ↦ (ok fresh, after)
      ])
      else (err state_transition_error, after)

-- ORDER BY state_since.
unfoldable pub insert_by_since : StateRow → List StateRow → List StateRow
insert_by_since r [] = r ∷ []
insert_by_since r (x ∷ rows) =
    if leb r.state_since x.state_since then r ∷ x ∷ rows else x ∷ insert_by_since r rows

unfoldable pub order_by_since : List StateRow → List StateRow
unfolding insert_by_since
order_by_since [] = []
order_by_since (r ∷ rows) = insert_by_since r (order_by_since rows)

abbrev pub is_locked : Session → StateRow → Bool
is_locked s r = any (λ k. k == r.enterprise_number) s.locked

-- The queue of a state: oldest first, without the rows that other transactions hold.
unfoldable pub queue : ProcessingState → Session → List StateRow
unfolding order_by_since
queue state s =
    order_by_since (keep (λ (r : StateRow). state_eq r.state state && not (is_locked s r)) s.states)

module _ ⦃u : Unicode⦄ where
  unfoldable pub upsert_enterprise :
      String → SeedSource → ProcessingState → Action Session Enterprise
  upsert_enterprise raw source initial = do
    number ← lift (normalize_enterprise_number raw)
    λ s. elim (find_enterprise number s) [
      | some existing ↦ (ok existing, s)
      | none ↦ create_enterprise number source initial s
    ]

  unfoldable pub transition_state :
      String
      → ProcessingState
      → ProcessingState
      → Option String
      → Option ℕ
      → Action Session StateRow
  unfolding read_for_transition write_transition
  transition_state raw expected target owner until = do
    number ← lift (normalize_enterprise_number raw)
    row ← read_for_transition number expected
    write_transition number row expected target owner until

  -- for number in numbers: transition_state(...)
  unfoldable pub transition_all :
      List String → ProcessingState → ProcessingState → String → ℕ → Action Session Unit
  unfolding transition_state
  transition_all [] from_state to_state worker_id until = pure tt
  transition_all (number ∷ numbers) from_state to_state worker_id until =
      transition_state number from_state to_state (some worker_id) (some until)
      >> transition_all numbers from_state to_state worker_id until

  -- The second half of both claims: compute `lock_until`, move every selected row.
  unfoldable pub take_claims :
      List String → ProcessingState → ProcessingState → String → ℕ → Action Session (List String)
  unfolding transition_all
  take_claims numbers from_state to_state worker_id lock_seconds = do
    now ← utc_now
    transition_all numbers from_state to_state worker_id (now + lock_seconds * 1_000_000)
    pure numbers

  unfoldable pub claim_enterprises_for_parse : ℕ → String → ℕ → Action Session (List String)
  unfolding queue take_claims
  claim_enterprises_for_parse limit worker_id lock_seconds s =
      take_claims (map state_key (take limit (queue queued_parse s))) queued_parse parsing worker_id
        lock_seconds s

  unfoldable pub normalize_all : List String → Result (List String)
  normalize_all [] = ok []
  normalize_all (x ∷ xs) = elim (normalize_enterprise_number x) [
    | err e ↦ err e
    | ok n ↦ elim (normalize_all xs) [ err e ↦ err e | ok ns ↦ ok (n ∷ ns) ]
  ]

  -- The selection of a claim for scraping: the requested numbers, or the head of the queue.
  unfoldable pub select_for_scrape : ℕ → List String → Action Session (List String)
  unfolding queue
  select_for_scrape limit [] s = (ok (map state_key (take limit (queue queued_scrape s))), s)
  select_for_scrape limit (x ∷ xs) s = elim (normalize_all (x ∷ xs)) [
    | err e ↦ (err e, s)
    | ok wanted ↦ (
      ok (
          map state_key (
            keep (λ (r : StateRow). any (λ k. k == r.enterprise_number) wanted)
              (queue queued_scrape s))),
      s,
    )
  ]

  -- `enterprise_numbers` is `[]` where the source has None or an empty list.
  unfoldable pub claim_enterprises_for_scrape :
      ℕ → String → ℕ → List String → Action Session (List String)
  unfolding select_for_scrape take_claims
  claim_enterprises_for_scrape limit worker_id lock_seconds enterprise_numbers = do
    numbers ← select_for_scrape limit enterprise_numbers
    take_claims numbers queued_scrape scraping worker_id lock_seconds

  unfoldable pub require_enterprise : String → Action Session Enterprise
  require_enterprise raw = do
    number ← lift (normalize_enterprise_number raw)
    λ s. elim (find_enterprise number s) [
      | none ↦ (err enterprise_not_found, s)
      | some e ↦ (ok e, s)
    ]
