-- ===== src/Persistence/Repositories/Claims/Taken.antt =====
-- packages/persistence/repositories.py: the enterprises of a claim, after it.
use airflow_kbo.Prelude.{ℕ, String, ◌≡◌, refl, true, some, List, [], ◌∷◌, arith, ◌==◌, eq_iff, any}
use airflow_kbo.Text.{Unicode}
use airflow_kbo.Persistence.Enums.{ProcessingState}
use airflow_kbo.Persistence.Session.{Session}
use airflow_kbo.Persistence.Repositories.Transition.{row_after}
use airflow_kbo.Persistence.Repositories.Queue.{AreQueued}
use airflow_kbo.Persistence.Repositories.Claims.{Claimed}

module _ ⦃u : Unicode⦄ (numbers : List String) (from_state target : ProcessingState)
    (worker_id : String) (until : ℕ) (s s' : Session)
    (claim : Claimed numbers target worker_id until s s') where
  taken_part :
      (ks : List String)
      → ((k : String) → any (λ j. j == k) ks ≡ true → any (λ j. j == k) numbers ≡ true)
      → AreQueued from_state s ks
      → AreQueued target s' ks
  taken_part [] part h = tt
  taken_part (k ∷ ks) part ((row, found, here), once, ten, rest) =
      let (now, taken) = claim.taken k row (part k (ground (arith, eq_iff k k))) found in
      (
        (row_after row target (some worker_id) (some until) now, taken, refl),
        once,
        ten,
        taken_part ks (λ j listed. part j (ground arith)) rest,
      )

  -- They all have the target state, and each was taken once.
  pub Claimed-AreQueued : AreQueued from_state s numbers → AreQueued target s' numbers
  Claimed-AreQueued h = taken_part numbers (λ k listed. listed) h
