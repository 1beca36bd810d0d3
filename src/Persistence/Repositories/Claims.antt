-- ===== src/Persistence/Repositories/Claims.antt =====
-- The claims of packages/persistence/repositories.py: who is taken off a queue, and what is left.
pub mod Queues
pub mod Taken
pub mod Moves
pub mod Fair
use airflow_kbo.Prelude.{
  ℕ, suc, ◌+◌, ◌*◌, String, ◌≡◌, refl, sym, ap, subst, ◌∙◌, true, false, false≢true, Option, none,
  some, List, [], ◌∷◌, map, arith, ◌==◌, eq_iff, if◌then◌else◌, take, any, Bool-cases, Option-cases,
  inl, inr,
}
use airflow_kbo.Text.{Unicode}
use airflow_kbo.Action.{Result, ok}
use airflow_kbo.Storage.Paths.{IsNumber, normalize_of_IsNumber}
use airflow_kbo.Persistence.Enums.{ProcessingState, queued_scrape, scraping, queued_parse, parsing}
use airflow_kbo.Persistence.Table.{find_key-update, find_key-some}
use airflow_kbo.Persistence.Session.{Session, StateRow, find_state, state_key, IsSound}
use airflow_kbo.Persistence.Repositories.{
  is_target, moved, queue, transition_all, take_claims, claim_enterprises_for_parse,
  claim_enterprises_for_scrape, select_for_scrape,
}
use airflow_kbo.Persistence.Repositories.Transition.{
  row_after, after_transition, after_transition-IsSound, transition_state_lem, find-after,
}
use airflow_kbo.Persistence.Repositories.Queue.{
  AreQueued, take-queue-AreQueued, keep-queue-AreQueued,
}

-- `s'` is `s` but for the processing states and the readings of the clock.
pub record KeepsOthers (s s' : Session) : Type 0 where
  pub enterprises : s'.enterprises ≡ s.enterprises
  pub documents : s'.documents ≡ s.documents
  pub snapshots : s'.snapshots ≡ s.snapshots
  pub discoveries : s'.discoveries ≡ s.discoveries
  pub history : s'.history ≡ s.history
  pub locked : s'.locked ≡ s.locked

-- `numbers`, and they alone, have moved to `target` under the lock of `worker_id`, each with its
-- version raised by one.
pub record Claimed (numbers : List String) (target : ProcessingState) (worker_id : String)
    (until : ℕ) (s s' : Session) : Type 0 where
  pub taken :
      (k : String) (row : StateRow)
      → any (λ j. j == k) numbers ≡ true
      → find_state k s ≡ some row
      → (now : ℕ) × (find_state k s'
          ≡ some (row_after row target (some worker_id) (some until) now))
  pub kept : (k : String) → any (λ j. j == k) numbers ≡ false → find_state k s' ≡ find_state k s
  pub others : KeepsOthers s s'

module _ ⦃u : Unicode⦄ where
  pub find-after_ne :
      (number k : String) (row : StateRow) (expected target : ProcessingState)
      (owner : Option String) (until : Option ℕ) (s : Session)
      → (number == k) ≡ false
      → find_state k (after_transition number row expected target owner until s) ≡ find_state k s
  find-after_ne number k row expected target owner until s other =
      elim (Option-cases (find_state k s)) [
        | inl absent ↦ ground (arith, update_lem, absent)
        | inr (r, found) ↦ ground (
          arith,
          update_lem,
          found,
          find_key-some state_key k s.states r found,
          eq_iff r.enterprise_number number,
          eq_iff number k,
        )
      ]
    where
      update_lem :
          find_state k (after_transition number row expected target owner until s)
          ≡ elim (find_state k s) [
            | none ↦ none
            | some r ↦ some (
                if is_target number row expected r
                then moved row target owner until (s.clock s.ticks) r
                else r)
          ]
      update_lem =
          find_key-update state_key (is_target number row expected)
            (moved row target owner until (s.clock s.ticks)) (λ r. refl) k s.states

  AreQueued-after :
      (number : String) (row : StateRow) (from_state target : ProcessingState)
      (owner : Option String) (until : Option ℕ) (s : Session) (ks : List String)
      → any (λ j. j == number) ks ≡ false
      → AreQueued from_state s ks
      → AreQueued from_state (after_transition number row from_state target owner until s) ks
  AreQueued-after number row from_state target owner until s [] absent h = tt
  AreQueued-after number row from_state target owner until s (k ∷ ks) absent
        ((r, found, here), once, ten, rest) =
      let other : (number == k) ≡ false = ground (arith, eq_iff number k, eq_iff k number) in
      (
        (r, find-after_ne number k row from_state target owner until s other ∙ found, here),
        once,
        ten,
        AreQueued-after number row from_state target owner until s ks (ground arith) rest,
      )

  module _ (from_state target : ProcessingState) (worker_id : String) (until : ℕ) where
    abbrev after_all : Session → List String → Session
    after_all s ks = (transition_all ks from_state target worker_id until s).1

    -- One step of the loop over the numbers of a claim.
    transition_all-cons :
        (k : String) (ks : List String) (row : StateRow) (s : Session)
        → IsSound s
        → IsNumber k
        → find_state k s ≡ some row
        → row.state ≡ from_state
        → transition_all (k ∷ ks) from_state target worker_id until s
          ≡ transition_all ks from_state target worker_id until
              (after_transition k row from_state target (some worker_id) (some until) s)
    unfolding transition_all
    transition_all-cons k ks row s sound ten found here = rw (
        transition_state_lem k k row from_state target (some worker_id) (some until) s sound
          (normalize_of_IsNumber k ten) found here)

    -- The numbers of a claim are taken one after the other.
    Claimed-cons :
        (k : String) (ks : List String) (row : StateRow) (s s' : Session)
        → find_state k s ≡ some row
        → row.state ≡ from_state
        → any (λ j. j == k) ks ≡ false
        → Claimed ks target worker_id until
            (after_transition k row from_state target (some worker_id) (some until) s)
            s'
        → Claimed (k ∷ ks) target worker_id until s s'
    Claimed-cons k ks row s s' found here once c = record {
      taken = λ j r listed is_at. elim (Bool-cases (k == j)) [
        | inl same ↦
            let e : k ≡ j = (eq_iff k j).0 same in
            let r_row : row ≡ r = ground (arith, ap (λ x. find_state x s) e) in
            let moved_row =
              find-after k row from_state target (some worker_id) (some until) s found here in
            (
              s.clock s.ticks,
              subst
                  (λ x.
                    find_state x s'
                    ≡ some (row_after r target (some worker_id) (some until) (s.clock s.ticks)))
                  e
                  (subst
                    (λ x.
                      find_state k s'
                      ≡ some (row_after x target (some worker_id) (some until) (s.clock s.ticks)))
                    r_row (c.kept k once ∙ moved_row)),
            )
        | inr other ↦
            c.taken j r (ground arith) (
              find-after_ne k j row from_state target (some worker_id) (some until) s other ∙ is_at)
      ];
      kept = λ j out.
          c.kept j (ground arith)
          ∙ find-after_ne k j row from_state target (some worker_id) (some until) s (ground arith);
      others = record {
        enterprises = c.others.enterprises;
        documents = c.others.documents;
        snapshots = c.others.snapshots;
        discoveries = c.others.discoveries;
        history = c.others.history;
        locked = c.others.locked;
      };
    }

    -- What a loop over the numbers leaves, with its answer.
    abbrev IsDone : List String → Session → Result Unit × Session → Type 0
    IsDone ks s out = (out.0 ≡ ok tt) × IsSound out.1 × Claimed ks target worker_id until s out.1

    transition_all_lem :
        (ks : List String) (s : Session)
        → IsSound s
        → AreQueued from_state s ks
        → IsDone ks s (transition_all ks from_state target worker_id until s)
    transition_all_lem [] s sound h =
        unfold transition_all in
        (
          refl,
          sound,
          record {
            taken = λ k row here found. absurd (false≢true here);
            kept = λ k out. refl;
            others = record {
              enterprises = refl;
              documents = refl;
              snapshots = refl;
              discoveries = refl;
              history = refl;
              locked = refl;
            };
          },
        )
    transition_all_lem (k ∷ ks) s sound ((row, found, here), once, ten, rest) =
        let s1 = after_transition k row from_state target (some worker_id) (some until) s in
        let later =
          transition_all_lem ks s1
            (after_transition-IsSound k row from_state target (some worker_id) (some until) s sound)
            (AreQueued-after k row from_state target (some worker_id) (some until) s ks once
              rest) in
        subst (IsDone (k ∷ ks) s) (sym (transition_all-cons k ks row s sound ten found here))
          (later.0, later.1, Claimed-cons k ks row s _ found here once later.2)

  AreQueued-ticked :
      (state : ProcessingState) (s : Session) (ks : List String)
      → AreQueued state s ks
      → AreQueued state (record s { ticks = suc s.ticks }) ks
  AreQueued-ticked state s [] h = tt
  AreQueued-ticked state s (k ∷ ks) (at, once, ten, rest) =
      (at, once, ten, AreQueued-ticked state s ks rest)

  -- A reading of the clock changes no table.
  pub ticked-IsSound : (s : Session) → IsSound s → IsSound (record s { ticks = suc s.ticks })
  ticked-IsSound s sound = record {
    unique_enterprises = sound.unique_enterprises;
    unique_states = sound.unique_states;
    tracked = sound.tracked;
    numbers = sound.numbers;
    documents_known = sound.documents_known;
    snapshots_known = sound.snapshots_known;
    discoveries_known = sound.discoveries_known;
    history_known = sound.history_known;
  }

  -- The answer of a claim, its database, and what it took.
  abbrev pub IsClaim :
      List String → ProcessingState → String → ℕ → Session → Result (List String) × Session → Type 0
  IsClaim numbers target worker_id until s out =
      (out.0 ≡ ok numbers) × IsSound out.1 × Claimed numbers target worker_id until s out.1

  pub take_claims_lem :
      (numbers : List String) (from_state target : ProcessingState) (worker_id : String)
      (lock_seconds : ℕ) (s : Session)
      → IsSound s
      → AreQueued from_state s numbers
      → IsClaim numbers target worker_id
          (s.clock s.ticks + lock_seconds * 1_000_000)
          s
          (take_claims numbers from_state target worker_id lock_seconds s)
  unfolding take_claims
  take_claims_lem numbers from_state target worker_id lock_seconds s sound queued =
      let ticked : Session = record s { ticks = suc s.ticks } in
      let until = s.clock s.ticks + lock_seconds * 1_000_000 in
      let all_done =
        transition_all_lem from_state target worker_id until numbers ticked (ticked-IsSound s sound)
          (AreQueued-ticked from_state s numbers queued) in
      rw (all_done.0) (
        refl,
        all_done.1,
        record {
          taken = all_done.2.taken;
          kept = all_done.2.kept;
          others = record {
            enterprises = all_done.2.others.enterprises;
            documents = all_done.2.others.documents;
            snapshots = all_done.2.others.snapshots;
            discoveries = all_done.2.others.discoveries;
            history = all_done.2.others.history;
            locked = all_done.2.others.locked;
          };
        },
      )
