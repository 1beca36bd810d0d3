-- ===== src/Ingestion/Upserts.antt =====
-- packages/ingestion/ingest.py: the statements for PostgreSQL do what the loop of upserts does.
use airflow_kbo.Prelude.{
  ℕ, suc, ◌+◌, ◌-◌, ◌≤◌, String, ◌≡◌, refl, sym, ◌∙◌, ap, subst, true, false, ◌||◌, List, [], ◌∷◌,
  ◌++◌, map, ◌==◌, if◌then◌else◌, Bool-cases, inl, inr, length, All, arith,
}
use mathlib.Core.List.{append-nil, append_assoc, map-append}
use airflow_kbo.Text.{Unicode}
use airflow_kbo.Action.{ok}
use airflow_kbo.Storage.Paths.{IsNumber, normalize_of_IsNumber}
use airflow_kbo.Persistence.Enums.{csv, queued_scrape}
use airflow_kbo.Persistence.Table.{has_key, has_key-append}
use airflow_kbo.Persistence.Session.{
  Session, Enterprise, StateRow, enterprise_key, state_key, is_known, IsSound,
}
use airflow_kbo.Persistence.Repositories.{fresh_state}
use airflow_kbo.Persistence.Repositories.Upsert.{upsert_enterprise_lem, registered}
use airflow_kbo.Ingestion.{insert_ignoring, Counts, seed, upsert_each, upsert_batch_postgresql}

-- A state row without its times.
abbrev pub bare : StateRow → StateRow
bare r = record r { state_since = 0; updated_at = 0 }

abbrev pub row_at : ℕ → Enterprise → StateRow
row_at now e = fresh_state e.enterprise_number queued_scrape now

abbrev pub inserted : List String → Session → List Enterprise × List Enterprise
inserted numbers s = insert_ignoring enterprise_key (map seed numbers) s.enterprises

-- What the upserts of a batch leave: the new enterprises are appended with a state row each, and every
-- number is counted once.
pub record Upserted (numbers : List String) (c : Counts) (s : Session) (c' : Counts) (s' : Session)
    : Type 0 where
  pub created : c'.0 ≡ c.0 + length (inserted numbers s).1
  pub counted : c'.0 + c'.1 ≡ c.0 + c.1 + length numbers
  pub enterprises : s'.enterprises ≡ (inserted numbers s).0
  pub states :
      map bare s'.states ≡ map bare s.states ++ map (λ e. bare (row_at 0 e)) (inserted numbers s).1
  pub documents : s'.documents ≡ s.documents
  pub snapshots : s'.snapshots ≡ s.snapshots
  pub discoveries : s'.discoveries ≡ s.discoveries
  pub history : s'.history ≡ s.history

module _ {A : Type 0} (key : A → String) where
  pub insert_ignoring_le :
      (rows table : List A) → length (insert_ignoring key rows table).1 ≤ length rows
  unfolding insert_ignoring
  insert_ignoring_le [] table = omega arith
  insert_ignoring_le (r ∷ rows) table = elim (Bool-cases (has_key key (key r) table)) [
    | inl there ↦ rw there (omega (arith, insert_ignoring_le rows table))
    | inr absent ↦ rw absent (omega (arith, insert_ignoring_le rows (table ++ r ∷ [])))
  ]

  -- A row in conflict is left out, any other one is inserted.
  pub insert_ignoring-there :
      (r : A) (rows table : List A)
      → has_key key (key r) table ≡ true
      → insert_ignoring key (r ∷ rows) table ≡ insert_ignoring key rows table
  unfolding insert_ignoring
  insert_ignoring-there r rows table there = rw there refl

  pub insert_ignoring-absent :
      (r : A) (rows table : List A)
      → has_key key (key r) table ≡ false
      → insert_ignoring key (r ∷ rows) table ≡ (
        (insert_ignoring key rows (table ++ r ∷ [])).0,
        r ∷ (insert_ignoring key rows (table ++ r ∷ [])).1,
      )
  unfolding insert_ignoring
  insert_ignoring-absent r rows table absent = rw absent refl

length-seed : (numbers : List String) → length (map seed numbers) ≡ length numbers
length-seed [] = refl
length-seed (x ∷ xs) = ap suc (length-seed xs)

-- The state rows of inserted enterprises meet no conflict.
insert_states :
    (now : ℕ) (rows table : List Enterprise) (states : List StateRow)
    → ((k : String) → has_key state_key k states ≡ has_key enterprise_key k table)
    → (insert_ignoring state_key
        (map (row_at now) (insert_ignoring enterprise_key rows table).1)
        states).0
      ≡ states ++ map (row_at now) (insert_ignoring enterprise_key rows table).1
insert_states now [] table states tracked = unfold insert_ignoring in sym (append-nil states)
insert_states now (r ∷ rows) table states tracked =
    elim (Bool-cases (has_key enterprise_key r.enterprise_number table)) [
      | inl there ↦
          rw (insert_ignoring-there enterprise_key r rows table there)
            (insert_states now rows table states tracked)
      | inr absent ↦
          let absent' : has_key state_key r.enterprise_number states ≡ false =
            tracked r.enterprise_number ∙ absent in
          let later = (insert_ignoring enterprise_key rows (table ++ r ∷ [])).1 in
          rw (insert_ignoring-absent enterprise_key r rows table absent) (
            ap (λ t. t.0)
              (insert_ignoring-absent state_key (row_at now r) (map (row_at now) later) states
                absent')
            ∙ insert_states now rows (table ++ r ∷ []) (states ++ row_at now r ∷ []) (λ k.
              has_key-append state_key k states (row_at now r)
              ∙ ap (λ b. b || r.enterprise_number == k) (tracked k)
              ∙ sym (has_key-append enterprise_key k table r))
            ∙ append_assoc states (row_at now r ∷ []) (map (row_at now) later))
    ]

map-bare :
    (now : ℕ) (rows : List Enterprise)
    → map bare (map (row_at now) rows) ≡ map (λ e. bare (row_at 0 e)) rows
map-bare now [] = refl
map-bare now (r ∷ rows) = ap (λ xs. bare (row_at 0 r) ∷ xs) (map-bare now rows)

module _ ⦃u : Unicode⦄ where
  -- The two statements.
  pub upsert_batch_postgresql_lem :
      (numbers : List String) (c : Counts) (s : Session)
      → IsSound s
      → (c' : Counts) × (s' : Session) × (upsert_batch_postgresql numbers c s ≡ (ok c', s'))
        × Upserted numbers c s c' s'
  unfolding upsert_batch_postgresql
  upsert_batch_postgresql_lem numbers (created, already_existed) s sound =
      let now = s.clock s.ticks in
      let new = inserted numbers s in
      let le = insert_ignoring_le enterprise_key (map seed numbers) s.enterprises in
      (
        (created + length new.1, already_existed + (length numbers - length new.1)),
        record s {
          ticks = suc s.ticks;
          enterprises = new.0;
          states = (insert_ignoring state_key (map (row_at now) new.1) s.states).0;
        },
        refl,
        record {
          created = refl;
          counted = omega (arith, le, length-seed numbers);
          enterprises = refl;
          states =
              ap (map bare)
                (insert_states now (map seed numbers) s.enterprises s.states sound.tracked)
              ∙ map-append bare s.states (map (row_at now) new.1)
              ∙ ap (λ rows. map bare s.states ++ rows) (map-bare now new.1);
          documents = refl;
          snapshots = refl;
          discoveries = refl;
          history = refl;
        },
      )

  upsert_each-known :
      (number : String) (numbers : List String) (c : Counts) (s : Session)
      → is_known number s ≡ true
      → upsert_each (number ∷ numbers) c s ≡ upsert_each numbers (c.0, suc c.1) s
  unfolding upsert_each
  upsert_each-known number numbers (created, already_existed) s there = rw there

  upsert_each-new :
      (number : String) (numbers : List String) (c : Counts) (s : Session)
      → IsSound s
      → IsNumber number
      → is_known number s ≡ false
      → (upsert_each (number ∷ numbers) c s
          ≡ upsert_each numbers (suc c.0, c.1) (registered number csv queued_scrape s))
        × IsSound (registered number csv queued_scrape s)
  unfolding upsert_each
  upsert_each-new number numbers (created, already_existed) s sound ten unknown =
      let (e, done, named, known, sound') =
        upsert_enterprise_lem number number csv queued_scrape s sound
          (normalize_of_IsNumber number ten) in
      (
        rw unknown (rw done (rw unknown refl)),
        subst (λ b. IsSound (if b then s else registered number csv queued_scrape s)) unknown
            sound',
      )

  Upserted-known :
      (number : String) (numbers : List String) (c c' : Counts) (s s' : Session)
      → is_known number s ≡ true
      → Upserted numbers (c.0, suc c.1) s c' s'
      → Upserted (number ∷ numbers) c s c' s'
  Upserted-known number numbers c c' s s' there v =
      let same =
        insert_ignoring-there enterprise_key (seed number) (map seed numbers) s.enterprises there in
      record {
        created = rw same v.created;
        counted = omega (arith, v.counted);
        enterprises = rw same v.enterprises;
        states = rw same v.states;
        documents = v.documents;
        snapshots = v.snapshots;
        discoveries = v.discoveries;
        history = v.history;
      }

  Upserted-new :
      (number : String) (numbers : List String) (c c' : Counts) (s s' : Session)
      → is_known number s ≡ false
      → Upserted numbers (suc c.0, c.1) (registered number csv queued_scrape s) c' s'
      → Upserted (number ∷ numbers) c s c' s'
  Upserted-new number numbers c c' s s' absent v =
      let row = fresh_state number queued_scrape (s.clock s.ticks) in
      let one_more =
        insert_ignoring-absent enterprise_key (seed number) (map seed numbers) s.enterprises
          absent in
      record {
        created = rw one_more (omega (arith, v.created));
        counted = omega (arith, v.counted);
        enterprises = rw one_more v.enterprises;
        states = rw one_more (
            v.states
            ∙ ap
                (λ rows.
                  rows
                  ++ map (λ e. bare (row_at 0 e))
                      (inserted numbers (registered number csv queued_scrape s)).1)
                (map-append bare s.states (row ∷ []))
            ∙ append_assoc (map bare s.states) (bare row ∷ []) _);
        documents = v.documents;
        snapshots = v.snapshots;
        discoveries = v.discoveries;
        history = v.history;
      }

  -- The loop.
  pub upsert_each_lem :
      (numbers : List String) (c : Counts) (s : Session)
      → IsSound s
      → All IsNumber numbers
      → (c' : Counts) × (s' : Session) × (upsert_each numbers c s ≡ (ok c', s'))
        × Upserted numbers c s c' s'
        × IsSound s'
  upsert_each_lem [] c s sound ten = (
    c,
    s,
    unfold upsert_each in refl,
    record {
      created = unfold insert_ignoring in omega arith;
      counted = omega arith;
      enterprises = unfold insert_ignoring in refl;
      states = unfold insert_ignoring in sym (append-nil (map bare s.states));
      documents = refl;
      snapshots = refl;
      discoveries = refl;
      history = refl;
    },
    sound,
  )
  upsert_each_lem (number ∷ numbers) c s sound (ten, tens) = elim (Bool-cases (is_known number s)) [
    | inl there ↦
        let (c', s', done, v, sound') = upsert_each_lem numbers (c.0, suc c.1) s sound tens in
        (
          c',
          s',
          upsert_each-known number numbers c s there ∙ done,
          Upserted-known number numbers c c' s s' there v,
          sound',
        )
    | inr absent ↦
        let (step, sound1) = upsert_each-new number numbers c s sound ten absent in
        let (c', s', done, v, sound') =
          upsert_each_lem numbers (suc c.0, c.1) (registered number csv queued_scrape s) sound1
            tens in
        (c', s', step ∙ done, Upserted-new number numbers c c' s s' absent v, sound')
  ]
