-- ===== src/Persistence/Repositories/Claims/Moves.antt =====
-- `transition_state` of packages/persistence/repositories.py, seen from the table of states.
use airflow_kbo.Prelude.{ℕ, String, ◌≡◌, refl, false, Option, some, ◌==◌}
use airflow_kbo.Text.{Unicode}
use airflow_kbo.Action.{Result, ok}
use airflow_kbo.Storage.Paths.{normalize_enterprise_number}
use airflow_kbo.Persistence.Enums.{ProcessingState}
use airflow_kbo.Persistence.Session.{Session, StateRow, find_state, IsSound}
use airflow_kbo.Persistence.Repositories.{transition_state}
use airflow_kbo.Persistence.Repositories.Transition.{
  row_after, transition_state_lem, after_transition-IsSound, find-after,
}
use airflow_kbo.Persistence.Repositories.Claims.{KeepsOthers, find-after_ne}

module _ ⦃u : Unicode⦄ where
  -- A row answered and stored, the other rows and tables as they were, and a sound database.
  abbrev pub IsMoved : String → StateRow → Session → Result StateRow × Session → Type 0
  IsMoved number row s out =
      (out.0 ≡ ok row)
      × (find_state number out.1 ≡ some row)
      × ((k : String) → (number == k) ≡ false → find_state k out.1 ≡ find_state k s)
      × KeepsOthers s out.1
      × IsSound out.1

  -- On a sound database a registered enterprise in the expected state moves to the target: its row
  -- is answered and stored with the target state since now, updated now, the given owner and end of
  -- the lock, and a version that is one more. The rows of the other enterprises and the other
  -- tables stay as they were, and the database stays sound.
  pub transition_state-Moves :
      (raw number : String) (row : StateRow) (expected target : ProcessingState)
      (owner : Option String) (until : Option ℕ) (s : Session)
      → IsSound s
      → normalize_enterprise_number raw ≡ ok number
      → find_state number s ≡ some row
      → row.state ≡ expected
      → IsMoved number
          (row_after row target owner until (s.clock s.ticks))
          s
          (transition_state raw expected target owner until s)
  transition_state-Moves raw number row expected target owner until s sound n found here =
      rw (transition_state_lem raw number row expected target owner until s sound n found here) (
        refl,
        find-after number row expected target owner until s found here,
        λ k other. find-after_ne number k row expected target owner until s other,
        record {
          enterprises = refl;
          documents = refl;
          snapshots = refl;
          discoveries = refl;
          history = refl;
          locked = refl;
        },
        after_transition-IsSound number row expected target owner until s sound,
      )
