-- ===== src/Persistence/Life/Steps.antt =====
-- The repository functions take enterprises along the graph of their states.
use airflow_kbo.Prelude.{
  ℕ, String, ◌≡◌, subst, false, Option, none, some, ◌==◌, eq_iff, Bool-cases, Option-cases, inl,
  inr,
}
use airflow_kbo.Text.{Unicode}
use airflow_kbo.Action.{Action, Result, Result-cases, Obeys, Obeys-bind, ◌>>=◌}
use airflow_kbo.Storage.Paths.{normalize_enterprise_number}
use airflow_kbo.Persistence.Enums.{SeedSource, ProcessingState, state_eq, state_eq_iff}
use airflow_kbo.Persistence.Table.{find_key-append, find_key, has_key, find_key-none, find_key-some}
use airflow_kbo.Persistence.Session.{Session, StateRow, find_state, state_key, IsSound}
use airflow_kbo.Persistence.Repositories.{transition_state, read_for_transition, fresh_state}
use airflow_kbo.Persistence.Repositories.Transition.{
  after_transition, find-after, write_transition-session, transition_state-IsSound,
}
use airflow_kbo.Persistence.Repositories.Upsert.{registered}
use airflow_kbo.Persistence.Repositories.Claims.{find-after_ne}
use airflow_kbo.Persistence.Life.{
  ◌⟶◌, ◌⟶*◌, here, follow, state_of, Evolves, Evolves-refl, Evolves-trans,
}

-- Sessions with the same state rows.
pub Evolves-same : (s s' : Session) → s'.states ≡ s.states → Evolves s s'
unfolding Evolves
Evolves-same s s' e k = rw e here

module _ ⦃u : Unicode⦄ where
  -- An action that leaves the database sound and moves states along the graph only.
  abbrev pub Lives : {A : Type 0} → Action Session A → Type 0
  Lives m = Obeys IsSound Evolves m

  pub Lives-bind :
      {A B : Type 0} (m : Action Session A) (f : A → Action Session B)
      → Lives m
      → ((a : A) → Lives (f a))
      → Lives (m >>= f)
  Lives-bind m f km kf = Obeys-bind IsSound Evolves Evolves-trans m f km kf

  pub pure-Lives : {A : Type 0} (r : Result A) → Lives (λ s. (r, s))
  pure-Lives r s sound = (sound, Evolves-refl s)

  after_transition-Evolves :
      (number : String) (row : StateRow) (expected target : ProcessingState) (owner : Option String)
      (until : Option ℕ) (s : Session)
      → some expected ⟶ some target
      → find_state number s ≡ some row
      → row.state ≡ expected
      → Evolves s (after_transition number row expected target owner until s)
  unfolding Evolves
  after_transition-Evolves number row expected target owner until s edge found at k =
      elim (Bool-cases (number == k)) [
        | inr other ↦ rw (find-after_ne number k row expected target owner until s other) here
        | inl same ↦
            let e : number ≡ k = (eq_iff number k).0 same in
            subst
              (λ j.
                state_of (find_state j s)
                ⟶* state_of
                    (find_state j (after_transition number row expected target owner until s)))
              e
              (rw (find-after number row expected target owner until s found at)
                (rw found (rw at (follow edge here))))
      ]

  -- A transition along an edge of the graph, whether it is granted or refused.
  pub transition_state-Lives :
      (raw : String) (expected target : ProcessingState) (owner : Option String) (until : Option ℕ)
      → some expected ⟶ some target
      → Lives (transition_state raw expected target owner until)
  unfolding transition_state read_for_transition find_key
  transition_state-Lives raw expected target owner until edge s sound = (
    transition_state-IsSound raw expected target owner until s sound,
    elim (Result-cases (normalize_enterprise_number raw)) [
      | inr (e, refused) ↦ rw refused (Evolves-refl s)
      | inl (number, n) ↦ elim (Option-cases (find_state number s)) [
        | inl absent ↦ rw n (rw absent (Evolves-refl s))
        | inr (row, found) ↦ elim (Bool-cases (state_eq row.state expected)) [
          | inl e ↦ rw n (
              rw found (
                rw e (
                  rw (write_transition-session number row expected target owner until s) (
                    after_transition-Evolves number row expected target owner until s edge found
                      ((state_eq_iff row.state expected).0 e)))))
          | inr e ↦ rw n (rw found (rw e (Evolves-refl s)))
        ]
      ]
    ],
  )

  pub registered-Evolves :
      (number : String) (source : SeedSource) (initial : ProcessingState) (s : Session)
      → none ⟶ some initial
      → has_key state_key number s.states ≡ false
      → Evolves s (registered number source initial s)
  unfolding Evolves
  registered-Evolves number source initial s edge unknown k =
      let row = fresh_state number initial (s.clock s.ticks) in
      let appended = find_key-append state_key k s.states row in
      elim (Option-cases (find_state k s)) [
        | inr (r, found) ↦
            let there = (find_key-some state_key k s.states r found).1 in
            rw appended (rw there here)
        | inl absent ↦
            let gone = find_key-none state_key k s.states absent in
            rw appended (
              rw gone (
                rw absent (elim (Bool-cases (number == k)) [
                  | inl same ↦ rw same (follow edge here)
                  | inr other ↦ rw other here
                ])))
      ]
