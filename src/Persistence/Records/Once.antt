-- ===== src/Persistence/Records/Once.antt =====
-- `record_discovery` of packages/persistence/repositories.py: one row for a pair of enterprises.
use airflow_kbo.Prelude.{
  ℕ, ◌≤◌, max, String, ◌≡◌, suc, subst, refl, sym, ap, ◌∙◌, Bool, true, false, ◌&&◌, Option, none,
  some, List, [], ◌∷◌, ◌++◌, ◌==◌, eq_iff, arith, count_if, count_if-append, find, Option-cases,
  Bool-cases, inl, inr,
}
use airflow_kbo.Text.{Unicode}
use airflow_kbo.Action.{ok}
use airflow_kbo.Storage.Paths.{
  normalize_enterprise_number, normalize-IsNumber, normalize_of_IsNumber,
}
use airflow_kbo.Persistence.Enums.{discovered, new}
use airflow_kbo.Persistence.Session.{Session, Discovery, is_known, IsSound}
use airflow_kbo.Persistence.Repositories.Upsert.{after_upsert, upsert_enterprise_lem}
use airflow_kbo.Persistence.Records.{same_pair, store_discovery, record_discovery, insert_discovery}
use airflow_kbo.Persistence.Records.Soundness.{record_discovery_lem}

-- The rows of a pair.
abbrev pub count_pair : String → String → List Discovery → ℕ
count_pair source number rows =
    count_if
      (λ (d : Discovery).
        d.source_enterprise_number == source && d.discovered_enterprise_number == number)
      rows

find-none-count :
    (p : Discovery → Bool) (rows : List Discovery) → find p rows ≡ none → count_if p rows ≡ 0
find-none-count p [] h = refl
find-none-count p (x ∷ rows) h = ground (arith, find-none-count p rows)

find-some-count :
    (p : Discovery → Bool) (rows : List Discovery) {d : Discovery}
    → find p rows ≡ some d
    → (p d ≡ true) × (1 ≤ count_if p rows)
find-some-count p [] h = absurd (ground arith)
find-some-count p (x ∷ rows) {d} h = elim (Bool-cases (p x)) [
  | inl e ↦ let same : x ≡ d = ground arith in (ap p (sym same) ∙ e, ground arith)
  | inr e ↦
      let (hit, some_row) = find-some-count p rows (ground arith) in (hit, ground (arith, some_row))
]

-- The answer is a row of the pair; the pair has one row more if it had none, any other pair as many
-- as before.
abbrev pub IsStoredOnce : String → String → List Discovery → Discovery → List Discovery → Type 0
IsStoredOnce source number before d after =
    (d.source_enterprise_number ≡ source)
    × (d.discovered_enterprise_number ≡ number)
    × (count_pair source number after ≡ max 1 (count_pair source number before))
    × ((a b : String)
        → (source == a && number == b) ≡ false
        → count_pair a b after ≡ count_pair a b before)

module _ ⦃u : Unicode⦄ where
  stored_once :
      (source number : String) (rows : List Discovery) {d : Discovery}
      → find (same_pair source number) rows ≡ some d
      → IsStoredOnce source number rows d rows
  stored_once source number rows {d} found =
      let (hit, some_row) = find-some-count (same_pair source number) rows found in
      (
        (eq_iff d.source_enterprise_number source).0 (ground (arith, hit)),
        (eq_iff d.discovered_enterprise_number number).0 (ground (arith, hit)),
        omega (arith, some_row),
        λ a b other. refl,
      )

  appended_once :
      (source number : String) (rows : List Discovery) (d : Discovery)
      → d.source_enterprise_number ≡ source
      → d.discovered_enterprise_number ≡ number
      → find (same_pair source number) rows ≡ none
      → IsStoredOnce source number rows d (rows ++ d ∷ [])
  appended_once source number rows d from to absent = (
    from,
    to,
    ground (
      arith,
      find-none-count (same_pair source number) rows absent,
      count_if-append (same_pair source number) rows (d ∷ []),
      (eq_iff d.source_enterprise_number source).1 from,
      (eq_iff d.discovered_enterprise_number number).1 to,
    ),
    λ a b other.
        let differs : same_pair a b d ≡ false = rw (from, to) other in
        ground (arith, count_if-append (same_pair a b) rows (d ∷ []), differs),
  )

  store_discovery-Once :
      (source number reason : String) (reason_code : Option String) (s : Session)
      → is_known number s ≡ true
      → (d : Discovery) × (s' : Session) × (store_discovery source number reason reason_code s
          ≡ (ok d, s'))
        × IsStoredOnce source number s.discoveries d s'.discoveries
  unfolding store_discovery insert_discovery
  store_discovery-Once source number reason reason_code s known =
      elim (Option-cases (find (same_pair source number) s.discoveries)) [
        | inr (d, found) ↦
            (d, s, rw (found, store_discovery), stored_once source number s.discoveries found)
        | inl absent ↦
            let d : Discovery = record {
              source_enterprise_number = source;
              discovered_enterprise_number = number;
              reason = reason;
              reason_code = reason_code;
              discovered_at = s.clock s.ticks;
            } in
            (
              d,
              record s { ticks = suc s.ticks; discoveries = s.discoveries ++ d ∷ [] },
              rw (absent, store_discovery) (rw known),
              appended_once source number s.discoveries d refl refl absent,
            )
      ]

  after_upsert-discoveries :
      (number : String) (s : Session)
      → (after_upsert number discovered new s).discoveries ≡ s.discoveries
  after_upsert-discoveries number s = ground arith

  -- On a sound database a discovery between two numbers that normalise returns a row of this pair of
  -- normalised numbers. The discovered enterprise is registered then, and the database is sound. The
  -- table of discoveries has one row more for the pair if it had none, as many as before otherwise,
  -- and as many as before for every other pair.
  pub record_discovery-Once :
      (raw_source raw_number source number : String) (reason : String) (reason_code : Option String)
      (s : Session)
      → IsSound s
      → normalize_enterprise_number raw_source ≡ ok source
      → normalize_enterprise_number raw_number ≡ ok number
      → (d : Discovery) × (s' : Session) × (record_discovery raw_source raw_number reason
            reason_code s
          ≡ (ok d, s'))
        × IsSound s'
        × (is_known number s' ≡ true)
        × IsStoredOnce source number s.discoveries d s'.discoveries
  unfolding record_discovery
  record_discovery-Once raw_source raw_number source number reason reason_code s sound n m =
      let (e, upserted, named, known, sound1) =
        upsert_enterprise_lem number number discovered new s sound
          (normalize_of_IsNumber number (normalize-IsNumber raw_number m)) in
      let (d, s', stored, once) =
        store_discovery-Once source number reason reason_code (after_upsert number discovered new s)
          known in
      let all_done : record_discovery raw_source raw_number reason reason_code s ≡ (ok d, s') =
        rw n (rw m (rw upserted stored)) in
      let (d', s'', again, recorded) =
        record_discovery_lem raw_source raw_number source number reason reason_code s sound n m in
      let same : s'' ≡ s' = cc (again, all_done) in
      (
        d,
        s',
        all_done,
        subst IsSound same recorded.sound,
        subst (λ x. is_known number x ≡ true) same recorded.known,
        subst (λ rows. IsStoredOnce source number rows d s'.discoveries)
            (after_upsert-discoveries number s) once,
      )
