-- ===== src/Ingestion/Alike.antt =====
-- packages/ingestion/ingest.py: databases that differ in the times of their state rows only, and
-- the equivalence of the two ways to write a batch.
use airflow_kbo.Prelude.{
  suc, String, ◌≡◌, refl, sym, ◌∙◌, ap, subst, Bool, true, false, List, [], ◌∷◌, map, Bool-cases,
  Option-cases, inl, inr, All, arith,
}
use airflow_kbo.Text.{Unicode}
use airflow_kbo.Action.{ok}
use airflow_kbo.Storage.Paths.{IsNumber}
use airflow_kbo.Persistence.Enums.{csv, queued_scrape}
use airflow_kbo.Persistence.Table.{
  find_key, has_key, count_key, find_key-update, has_key-update, count_key-update, All-update,
}
use airflow_kbo.Persistence.Session.{
  Session, StateRow, enterprise_key, state_key, is_known, IsSound,
}
use airflow_kbo.Persistence.Repositories.{upsert_enterprise}
use airflow_kbo.Persistence.Life.{ingest, state_of, Evolves, Evolves-refl}
use airflow_kbo.Persistence.Life.Steps.{Lives, Lives-bind}
use airflow_kbo.Persistence.Life.Writes.{upsert_enterprise-Lives}
use airflow_kbo.Ingestion.{Counts, upsert_each, upsert_new}
use airflow_kbo.Ingestion.Upserts.{bare, Upserted, upsert_each_lem, upsert_batch_postgresql_lem}

-- The same rows in every table, but for the times of the state rows.
pub record Alike (s s' : Session) : Type 0 where
  pub enterprises : s'.enterprises ≡ s.enterprises
  pub states : map bare s'.states ≡ map bare s.states
  pub documents : s'.documents ≡ s.documents
  pub snapshots : s'.snapshots ≡ s.snapshots
  pub discoveries : s'.discoveries ≡ s.discoveries
  pub history : s'.history ≡ s.history

abbrev every : StateRow → Bool
every r = true

same_count :
    (k : String) (xs ys : List StateRow)
    → map bare ys ≡ map bare xs
    → count_key state_key k ys ≡ count_key state_key k xs
same_count k xs ys e =
    sym (count_key-update state_key every bare (λ r. refl) k ys)
    ∙ ap (count_key state_key k) e
    ∙ count_key-update state_key every bare (λ r. refl) k xs

same_has :
    (k : String) (xs ys : List StateRow)
    → map bare ys ≡ map bare xs
    → has_key state_key k ys ≡ has_key state_key k xs
same_has k xs ys e =
    sym (has_key-update state_key every bare (λ r. refl) k ys)
    ∙ ap (has_key state_key k) e
    ∙ has_key-update state_key every bare (λ r. refl) k xs

state_of-bare :
    (k : String) (xs : List StateRow)
    → state_of (find_key state_key k (map bare xs)) ≡ state_of (find_key state_key k xs)
state_of-bare k xs = elim (Option-cases (find_key state_key k xs)) [
  | inl absent ↦ rw (find_key-update state_key every bare (λ r. refl) k xs) (rw absent refl)
  | inr (r, found) ↦ rw (find_key-update state_key every bare (λ r. refl) k xs) (rw found refl)
]

same_state :
    (k : String) (xs ys : List StateRow)
    → map bare ys ≡ map bare xs
    → state_of (find_key state_key k ys) ≡ state_of (find_key state_key k xs)
same_state k xs ys e =
    sym (state_of-bare k ys)
    ∙ ap (λ rows. state_of (find_key state_key k rows)) e
    ∙ state_of-bare k xs

All-unbare :
    (P : String → Type 0) (rows : List StateRow)
    → All (λ (r : StateRow). P r.enterprise_number) (map bare rows)
    → All (λ (r : StateRow). P r.enterprise_number) rows
All-unbare P [] h = tt
All-unbare P (r ∷ rows) h = (h.0, All-unbare P rows h.1)

module _ ⦃u : Unicode⦄ where
  pub Alike-IsSound : (s s' : Session) → Alike s s' → IsSound s → IsSound s'
  Alike-IsSound s s' alike sound =
      let known : (k : String) → is_known k s' ≡ is_known k s =
        λ k. ap (has_key enterprise_key k) alike.enterprises in
      record {
        unique_enterprises = λ k. rw alike.enterprises (sound.unique_enterprises k);
        unique_states =
            λ k. rw (same_count k s.states s'.states alike.states) (sound.unique_states k);
        tracked = λ k. same_has k s.states s'.states alike.states ∙ sound.tracked k ∙ sym (known k);
        numbers = All-unbare IsNumber s'.states (
            subst (All (λ (r : StateRow). IsNumber r.enterprise_number)) (sym alike.states)
              (All-update state_key IsNumber every bare (λ r. refl) s.states sound.numbers));
        documents_known = rw alike.documents (rw alike.enterprises sound.documents_known);
        snapshots_known = rw alike.snapshots (rw alike.enterprises sound.snapshots_known);
        discoveries_known = rw alike.discoveries (rw alike.enterprises sound.discoveries_known);
        history_known = rw alike.history (rw alike.enterprises sound.history_known);
      }

  Alike-Evolves : (s t t' : Session) → Alike t t' → Evolves s t → Evolves s t'
  unfolding Evolves
  Alike-Evolves s t t' alike life k = rw (same_state k t.states t'.states alike.states) (life k)

  Upserted-Alike :
      (numbers : List String) (c c' c'' : Counts) (s s' s'' : Session)
      → Upserted numbers c s c' s'
      → Upserted numbers c s c'' s''
      → Alike s' s'' × (c'' ≡ c')
  Upserted-Alike numbers c c' c'' s s' s'' a b = (
    record {
      enterprises = b.enterprises ∙ sym a.enterprises;
      states = b.states ∙ sym a.states;
      documents = b.documents ∙ sym a.documents;
      snapshots = b.snapshots ∙ sym a.snapshots;
      discoveries = b.discoveries ∙ sym a.discoveries;
      history = b.history ∙ sym a.history;
    },
    let first : c''.0 ≡ c'.0 = omega (arith, a.created, b.created) in
        let second : c''.1 ≡ c'.1 = omega (arith, first, a.counted, b.counted) in
        λ i. (first i, second i),
  )

  upsert_each-Lives : (numbers : List String) (c : Counts) → Lives (upsert_each numbers c)
  unfolding upsert_each
  upsert_each-Lives [] c s sound = (sound, Evolves-refl s)
  upsert_each-Lives (number ∷ numbers) (created, already_existed) s sound =
      elim (Bool-cases (is_known number s)) [
        | inl there ↦ rw there (upsert_each-Lives numbers (created, suc already_existed) s sound)
        | inr absent ↦ rw absent (
            Lives-bind (upsert_enterprise number csv queued_scrape)
              (λ e. upsert_each numbers (suc created, already_existed))
              (upsert_enterprise-Lives number csv queued_scrape ingest)
              (λ e. upsert_each-Lives numbers (suc created, already_existed)) s sound)
      ]

  -- Either way.
  pub upsert_new_lem :
      (postgresql : Bool) (numbers : List String) (c : Counts) (s : Session)
      → IsSound s
      → All IsNumber numbers
      → (c' : Counts) × (s' : Session) × (upsert_new postgresql numbers c s ≡ (ok c', s'))
        × Upserted numbers c s c' s'
        × IsSound s'
        × Evolves s s'
  upsert_new_lem false numbers c s sound ten =
      let (c', s', done, v, sound') = upsert_each_lem numbers c s sound ten in
      (
        c',
        s',
        done,
        v,
        sound',
        subst (Evolves s) (ap (λ t. t.1) done) (upsert_each-Lives numbers c s sound).1,
      )
  upsert_new_lem true numbers c s sound ten =
      let (c', s', done, v, sound') = upsert_each_lem numbers c s sound ten in
      let (c'', s'', done', w) = upsert_batch_postgresql_lem numbers c s sound in
      let (alike, same) = Upserted-Alike numbers c c' c'' s s' s'' v w in
      let life = subst (Evolves s) (ap (λ t. t.1) done) (upsert_each-Lives numbers c s sound).1 in
      (c'', s'', done', w, Alike-IsSound s' s'' alike sound', Alike-Evolves s s' s'' alike life)
