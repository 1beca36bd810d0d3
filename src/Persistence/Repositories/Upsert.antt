-- ===== src/Persistence/Repositories/Upsert.antt =====
-- `upsert_enterprise` of packages/persistence/repositories.py.
use airflow_kbo.Prelude.{
  suc, String, ◌≡◌, ◌⊎◌, false, none, some, refl, sym, subst, ◌∙◌, ap, true, false, ◌||◌, [], ◌∷◌,
  ◌++◌, arith, ◌==◌, eq_iff, if◌then◌else◌, All-map, All-append, Option-cases, inl, inr,
}
use airflow_kbo.Text.{Unicode}
use airflow_kbo.Action.{Result, ok}
use airflow_kbo.Storage.Paths.{normalize_enterprise_number, IsNumber, normalize-IsNumber}
use airflow_kbo.Persistence.Enums.{SeedSource, ProcessingState}
use airflow_kbo.Persistence.Table.{
  find_key, has_key-append, find_key-append, insert-IsUnique, find_key-none, find_key-some,
}
use airflow_kbo.Persistence.Session.{
  Session, Enterprise, enterprise_key, state_key, find_enterprise, find_state, is_known, IsSound,
}
use airflow_kbo.Persistence.Repositories.{fresh_state, create_enterprise, upsert_enterprise}

abbrev pub enterprise : String → SeedSource → Enterprise
enterprise number source = record { enterprise_number = number; seed_source = source }

-- The session after the registration of a new enterprise.
abbrev pub registered : String → SeedSource → ProcessingState → Session → Session
registered number source initial s = record s {
  ticks = suc s.ticks;
  enterprises = s.enterprises ++ enterprise number source ∷ [];
  states = s.states ++ fresh_state number initial (s.clock s.ticks) ∷ [];
}

still_known :
    (number : String) (source : SeedSource) (initial : ProcessingState) (s : Session) (k : String)
    → is_known k s ≡ true
    → is_known k (registered number source initial s) ≡ true
still_known number source initial s k h =
    ground (arith, has_key-append enterprise_key k s.enterprises (enterprise number source))

module _ ⦃u : Unicode⦄ where
  pub registered-IsSound :
      (number : String) (source : SeedSource) (initial : ProcessingState) (s : Session)
      → IsSound s
      → IsNumber number
      → is_known number s ≡ false
      → IsSound (registered number source initial s)
  registered-IsSound number source initial s sound ten unknown = record {
    unique_enterprises =
        insert-IsUnique enterprise_key s.enterprises (enterprise number source)
          sound.unique_enterprises unknown;
    unique_states =
        insert-IsUnique state_key s.states (fresh_state number initial (s.clock s.ticks))
          sound.unique_states (sound.tracked number ∙ unknown);
    tracked = λ k.
        has_key-append state_key k s.states (fresh_state number initial (s.clock s.ticks))
        ∙ ap (λ b. b || number == k) (sound.tracked k)
        ∙ sym (has_key-append enterprise_key k s.enterprises (enterprise number source));
    numbers = All-append (λ r. IsNumber r.enterprise_number) s.states _ sound.numbers (ten, tt);
    documents_known =
        All-map _ _ (λ d. still_known number source initial s d.enterprise_number) s.documents
          sound.documents_known;
    snapshots_known =
        All-map _ _ (λ d. still_known number source initial s d.enterprise_number) s.snapshots
          sound.snapshots_known;
    discoveries_known =
        All-map _ _ (λ d. still_known number source initial s d.discovered_enterprise_number)
          s.discoveries sound.discoveries_known;
    history_known =
        All-map _ _ (λ d. still_known number source initial s d.enterprise_number) s.history
          sound.history_known;
  }

  -- A new enterprise is registered with its state, in one step that cannot fail.
  pub create_enterprise_lem :
      (number : String) (source : SeedSource) (initial : ProcessingState) (s : Session)
      → IsSound s
      → is_known number s ≡ false
      → create_enterprise number source initial s
        ≡ (ok (enterprise number source), registered number source initial s)
  unfolding create_enterprise
  create_enterprise_lem number source initial s sound unknown = ground (
    arith,
    unknown,
    sound.tracked number,
    has_key-append enterprise_key number s.enterprises (enterprise number source),
    eq_iff number number,
  )

  -- The session that an upsert leaves: the same one if the enterprise is there.
  abbrev pub after_upsert : String → SeedSource → ProcessingState → Session → Session
  after_upsert number source initial s =
      if is_known number s then s else registered number source initial s

  pub upsert_enterprise_lem :
      (raw number : String) (source : SeedSource) (initial : ProcessingState) (s : Session)
      → IsSound s
      → normalize_enterprise_number raw ≡ ok number
      → (e : Enterprise) × (upsert_enterprise raw source initial s
          ≡ (ok e, after_upsert number source initial s))
        × (e.enterprise_number ≡ number)
        × (is_known number (after_upsert number source initial s) ≡ true)
        × IsSound (after_upsert number source initial s)
  unfolding upsert_enterprise find_key
  upsert_enterprise_lem raw number source initial s sound n =
      elim (Option-cases (find_enterprise number s)) [
        | inl absent ↦
            let unknown = find_key-none enterprise_key number s.enterprises absent in
            (
              enterprise number source,
              rw n (
                  rw absent
                    (rw unknown (create_enterprise_lem number source initial s sound unknown))),
              refl,
              rw unknown (
                  ground (
                    arith,
                    has_key-append enterprise_key number s.enterprises (enterprise number source),
                    eq_iff number number,
                  )),
              rw unknown (
                  registered-IsSound number source initial s sound (normalize-IsNumber raw n)
                    unknown),
            )
        | inr (e, found) ↦
            let there = find_key-some enterprise_key number s.enterprises e found in
            (e, rw n (rw found (rw there.1)), there.0, rw there.1 there.1, rw there.1 sound)
      ]

  -- What an upsert leaves when the enterprise is new.
  abbrev pub IsRegistered :
      String → SeedSource → ProcessingState → Session → Result Enterprise × Session → Type 0
  IsRegistered number source initial s out =
      (out.0 ≡ ok (record { enterprise_number = number; seed_source = source }))
      × (find_enterprise number out.1
          ≡ some (record { enterprise_number = number; seed_source = source }))
      × (find_state number out.1
          ≡ some (record {
            enterprise_number = number;
            state = initial;
            state_since = s.clock s.ticks;
            lock_owner = none;
            lock_until = none;
            updated_at = s.clock s.ticks;
            version = 1;
          }))
      × ((k : String) → (number == k) ≡ false → find_state k out.1 ≡ find_state k s)

  registered-Registers :
      (number : String) (source : SeedSource) (initial : ProcessingState) (s : Session)
      → IsSound s
      → is_known number s ≡ false
      → IsRegistered number source initial s
          (ok (enterprise number source), registered number source initial s)
  registered-Registers number source initial s sound unknown =
      let row = fresh_state number initial (s.clock s.ticks) in
      (
        refl,
        ground (
          arith,
          find_key-append enterprise_key number s.enterprises (enterprise number source),
          unknown,
          eq_iff number number,
        ),
        ground (
          arith,
          find_key-append state_key number s.states row,
          sound.tracked number,
          unknown,
          eq_iff number number,
        ),
        λ k other. elim (Option-cases (find_state k s)) [
          | inl absent ↦ ground (
            arith,
            find_key-append state_key k s.states row,
            find_key-none state_key k s.states absent,
            absent,
          )
          | inr (r, found) ↦ ground (
            arith,
            find_key-append state_key k s.states row,
            find_key-some state_key k s.states r found,
          )
        ],
      )

  -- What an upsert does.
  abbrev pub IsUpserted :
      String → SeedSource → ProcessingState → Session → Result Enterprise × Session → Type 0
  IsUpserted number source initial s out =
      IsSound out.1
      × (((e : Enterprise) × (find_enterprise number s ≡ some e) × (out ≡ (ok e, s)))
          ⊎ ((find_enterprise number s ≡ none) × IsRegistered number source initial s out))

  upsert_enterprise-stored :
      (raw number : String) (source : SeedSource) (initial : ProcessingState) (s : Session)
      (e : Enterprise)
      → normalize_enterprise_number raw ≡ ok number
      → find_enterprise number s ≡ some e
      → upsert_enterprise raw source initial s ≡ (ok e, s)
  unfolding upsert_enterprise find_key
  upsert_enterprise-stored raw number source initial s e n found = rw n (rw found refl)

  upsert_enterprise-absent :
      (raw number : String) (source : SeedSource) (initial : ProcessingState) (s : Session)
      → IsSound s
      → normalize_enterprise_number raw ≡ ok number
      → find_enterprise number s ≡ none
      → upsert_enterprise raw source initial s
        ≡ (ok (enterprise number source), registered number source initial s)
  unfolding upsert_enterprise find_key
  upsert_enterprise-absent raw number source initial s sound n absent = rw n (
      rw absent (
        create_enterprise_lem number source initial s sound
          (find_key-none enterprise_key number s.enterprises absent)))

  -- An upsert of a number that normalises returns on a sound database and leaves it sound. When the
  -- enterprise is stored, the stored row is answered and nothing is written. Otherwise it is
  -- registered under the normalised number with the given source and answered, its state row has
  -- the initial state since now, no lock and version 1, and the other state rows stay.
  pub upsert_enterprise-Registers :
      (raw number : String) (source : SeedSource) (initial : ProcessingState) (s : Session)
      → IsSound s
      → normalize_enterprise_number raw ≡ ok number
      → IsUpserted number source initial s (upsert_enterprise raw source initial s)
  upsert_enterprise-Registers raw number source initial s sound n =
      elim (Option-cases (find_enterprise number s)) [
        | inr (e, found) ↦
            subst (IsUpserted number source initial s)
              (sym (upsert_enterprise-stored raw number source initial s e n found))
              (sound, inl (e, found, refl))
        | inl absent ↦
            let unknown = find_key-none enterprise_key number s.enterprises absent in
            subst (IsUpserted number source initial s)
              (sym (upsert_enterprise-absent raw number source initial s sound n absent))
              (
                registered-IsSound number source initial s sound (normalize-IsNumber raw n) unknown,
                inr (absent, registered-Registers number source initial s sound unknown),
              )
      ]
