-- ===== src/Persistence/Repositories/Transition.antt =====
-- What `transition_state` of packages/persistence/repositories.py does, on every branch.
use airflow_kbo.Prelude.{
  ℕ, suc, ◌+◌, String, ◌≡◌, ◌≢◌, refl, ◌&&◌, Option, some, arith, eq_iff, count_if, nat_eq,
  Bool-cases, inl, inr, Option-cases,
}
use airflow_kbo.Text.{Unicode}
use airflow_kbo.Action.{ok, err, state_transition_error, Result-cases}
use airflow_kbo.Storage.Paths.{normalize_enterprise_number, IsNumber}
use airflow_kbo.Persistence.Enums.{ProcessingState, state_eq, state_eq_iff}
use airflow_kbo.Persistence.Table.{
  find_key, update_where, count_if_of_found, find_key-update, find_key-some, has_key-update,
  count_key-update, update_of_count_zero, All-update,
}
use airflow_kbo.Persistence.Session.{Session, StateRow, find_state, state_key, IsSound}
use airflow_kbo.Persistence.Repositories.{
  transition_state, read_for_transition, write_transition, is_target, moved,
}

-- What a transition is to leave of `row`: every field written out.
abbrev pub row_after : StateRow → ProcessingState → Option String → Option ℕ → ℕ → StateRow
row_after row target owner until now = record {
  enterprise_number = row.enterprise_number;
  state = target;
  state_since = now;
  lock_owner = owner;
  lock_until = until;
  updated_at = now;
  version = row.version + 1;
}

module _ ⦃u : Unicode⦄ where
  -- The session after a transition of `row` to `target`.
  abbrev pub after_transition :
      String
      → StateRow
      → ProcessingState
      → ProcessingState
      → Option String
      → Option ℕ
      → Session
      → Session
  after_transition number row expected target owner until s = record s {
    ticks = suc s.ticks;
    states =
        update_where state_key (is_target number row expected)
          (moved row target owner until (s.clock s.ticks)) s.states;
  }

  -- The row count of the UPDATE is 1 when the row is the one that was read.
  pub count-is_target :
      (number : String) (row : StateRow) (expected : ProcessingState) (s : Session)
      → IsSound s
      → find_state number s ≡ some row
      → row.state ≡ expected
      → count_if (is_target number row expected) s.states ≡ 1
  count-is_target number row expected s sound found here = ground (
    arith,
    count_if_of_found state_key number
        (λ r. nat_eq r.version row.version && state_eq r.state expected) s.states row
        (sound.unique_states number) found,
    (state_eq_iff row.state expected).1 here,
  )

  -- The refresh finds the moved row.
  pub find-after :
      (number : String) (row : StateRow) (expected target : ProcessingState) (owner : Option String)
      (until : Option ℕ) (s : Session)
      → find_state number s ≡ some row
      → row.state ≡ expected
      → find_state number (after_transition number row expected target owner until s)
        ≡ some (row_after row target owner until (s.clock s.ticks))
  find-after number row expected target owner until s found here = ground (
    arith,
    find_key-update state_key (is_target number row expected)
        (moved row target owner until (s.clock s.ticks)) (λ r. refl) number s.states,
    find_key-some state_key number s.states row,
    eq_iff row.enterprise_number number,
    (state_eq_iff row.state expected).1 here,
  )

  pub write_transition_lem :
      (number : String) (row : StateRow) (expected target : ProcessingState) (owner : Option String)
      (until : Option ℕ) (s : Session)
      → IsSound s
      → find_state number s ≡ some row
      → row.state ≡ expected
      → write_transition number row expected target owner until s ≡ (
        ok (moved row target owner until (s.clock s.ticks) row),
        after_transition number row expected target owner until s,
      )
  unfolding write_transition
  write_transition_lem number row expected target owner until s sound found here =
      rw (count-is_target number row expected s sound found here)
        (rw (find-after number row expected target owner until s found here))

  pub transition_state_lem :
      (raw number : String) (row : StateRow) (expected target : ProcessingState)
      (owner : Option String) (until : Option ℕ) (s : Session)
      → IsSound s
      → normalize_enterprise_number raw ≡ ok number
      → find_state number s ≡ some row
      → row.state ≡ expected
      → transition_state raw expected target owner until s ≡ (
        ok (row_after row target owner until (s.clock s.ticks)),
        after_transition number row expected target owner until s,
      )
  unfolding transition_state read_for_transition find_key
  transition_state_lem raw number row expected target owner until s sound n found here = rw n (
      rw found (
        rw ((state_eq_iff row.state expected).1 here)
          (write_transition_lem number row expected target owner until s sound found here)))

  -- An unregistered enterprise, or one in another state, is refused, and nothing is written.
  pub transition_state_refused :
      (raw number : String) (expected target : ProcessingState) (owner : Option String)
      (until : Option ℕ) (s : Session)
      → normalize_enterprise_number raw ≡ ok number
      → ((row : StateRow) → find_state number s ≡ some row → row.state ≢ expected)
      → transition_state raw expected target owner until s ≡ (err state_transition_error, s)
  unfolding transition_state read_for_transition find_key
  transition_state_refused raw number expected target owner until s n other =
      rw n (elim (Option-cases (find_state number s)) [
        | inl absent ↦ rw absent
        | inr (row, found) ↦ rw found (elim (Bool-cases (state_eq row.state expected)) [
          | inl e ↦ absurd (other row found ((state_eq_iff row.state expected).0 e))
          | inr e ↦ rw e
        ])
      ])

  -- Optimistic locking: a write that was prepared from a row whose version another transition has
  -- since changed is refused, and changes no row.
  pub write_transition_stale :
      (number : String) (read stored : StateRow) (expected target : ProcessingState)
      (owner : Option String) (until : Option ℕ) (s : Session)
      → IsSound s
      → find_state number s ≡ some stored
      → stored.version ≢ read.version
      → ((write_transition number read expected target owner until s).0
          ≡ err state_transition_error)
        × ((write_transition number read expected target owner until s).1.states ≡ s.states)
  unfolding write_transition
  write_transition_stale number read stored expected target owner until s sound found moved_on =
      let none_hit : count_if (is_target number read expected) s.states ≡ 0 = ground (
        arith,
        count_if_of_found state_key number
            (λ r. nat_eq r.version read.version && state_eq r.state expected) s.states stored
            (sound.unique_states number) found,
      ) in
      rw none_hit
        (refl, update_of_count_zero state_key (is_target number read expected) _ s.states none_hit)

  -- Every outcome of a transition leaves the database sound.
  pub after_transition-IsSound :
      (number : String) (row : StateRow) (expected target : ProcessingState) (owner : Option String)
      (until : Option ℕ) (s : Session)
      → IsSound s
      → IsSound (after_transition number row expected target owner until s)
  after_transition-IsSound number row expected target owner until s sound =
      let hit = is_target number row expected in
      let set = moved row target owner until (s.clock s.ticks) in
      record {
        unique_enterprises = sound.unique_enterprises;
        unique_states = λ k.
            rw (count_key-update state_key hit set (λ r. refl) k s.states) (sound.unique_states k);
        tracked =
            λ k. rw (has_key-update state_key hit set (λ r. refl) k s.states) (sound.tracked k);
        numbers = All-update state_key IsNumber hit set (λ r. refl) s.states sound.numbers;
        documents_known = sound.documents_known;
        snapshots_known = sound.snapshots_known;
        discoveries_known = sound.discoveries_known;
        history_known = sound.history_known;
      }

  -- `write_transition` ends in one of the two sessions: with the rows updated, whatever it answers.
  pub write_transition-session :
      (number : String) (row : StateRow) (expected target : ProcessingState) (owner : Option String)
      (until : Option ℕ) (s : Session)
      → (write_transition number row expected target owner until s).1
        ≡ after_transition number row expected target owner until s
  unfolding write_transition find_key
  write_transition-session number row expected target owner until s = ground arith

  -- Whatever is asked, and whether it is granted or refused, a transition leaves the database sound.
  pub transition_state-IsSound :
      (raw : String) (expected target : ProcessingState) (owner : Option String) (until : Option ℕ)
      (s : Session)
      → IsSound s
      → IsSound (transition_state raw expected target owner until s).1
  unfolding transition_state read_for_transition find_key
  transition_state-IsSound raw expected target owner until s sound =
      elim (Result-cases (normalize_enterprise_number raw)) [
        | inr (e, refused) ↦ rw refused sound
        | inl (number, n) ↦ elim (Option-cases (find_state number s)) [
          | inl absent ↦ rw n (rw absent sound)
          | inr (row, found) ↦ elim (Bool-cases (state_eq row.state expected)) [
            | inl e ↦ rw n (
                rw found (
                  rw e (
                    rw (write_transition-session number row expected target owner until s)
                      (after_transition-IsSound number row expected target owner until s sound))))
            | inr e ↦ rw n (rw found (rw e sound))
          ]
        ]
      ]
