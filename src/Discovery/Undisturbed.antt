-- ===== src/Discovery/Undisturbed.antt =====
-- packages/discovery/service.py: links never disturb an enterprise that is being worked on.
use airflow_kbo.Prelude.{
  String, ◌≡◌, refl, ◌∙◌, ap, subst, Bool, true, false, Option, none, some, List, ◌==◌, eq_iff,
  if◌then◌else◌, Bool-cases, Option-cases, inl, inr, arith,
}
use airflow_kbo.Text.{Unicode}
use airflow_kbo.Action.{Result-cases, Obeys}
use airflow_kbo.Storage.Paths.{normalize_enterprise_number}
use airflow_kbo.Persistence.Enums.{
  SeedSource, discovered, ProcessingState, new, queued_scrape, structured, failed_parse,
}
use airflow_kbo.Persistence.Session.{Session, StateRow, state_key, find_state, is_known, IsSound}
use airflow_kbo.Persistence.Table.{find_key, find_key-append, find_key-some}
use airflow_kbo.Persistence.Repositories.{fresh_state}
use airflow_kbo.Persistence.Repositories.Upsert.{after_upsert}
use airflow_kbo.Persistence.Records.{record_discovery}
use airflow_kbo.Persistence.Records.Soundness.{record_discovery_lem}
use airflow_kbo.Persistence.Life.{state_of}
use airflow_kbo.Discovery.{
  terminal_or_done, is_requeued, enqueue_if_new, apply_discovery_from_parse,
}
use airflow_kbo.Discovery.Enqueue.{enqueue_if_new_lem, state_after_link}
use airflow_kbo.Discovery.Life.{apply_discovery-Obeys}

-- The states that a link leaves alone.
abbrev pub is_done : Option ProcessingState → Bool
is_done none = false
is_done (some p) = terminal_or_done p

-- The states after a parse: a link may put a failed one back on the queue.
abbrev pub is_settled : Option ProcessingState → Bool
is_settled (some structured) = true
is_settled (some failed_parse) = true
is_settled (some queued_scrape) = true
is_settled _ = false

abbrev pub Stays : Option ProcessingState → Option ProcessingState → Type 0
Stays p q = (is_done p ≡ true → q ≡ p) × (is_settled p ≡ true → is_settled q ≡ true)

-- Enterprises at work keep their state, and parsed ones do not go back to work by themselves.
abbrev pub Undisturbed : Session → Session → Type 0
Undisturbed s s' = (k : String) → Stays (state_of (find_state k s)) (state_of (find_state k s'))

pub Stays-refl : (p : Option ProcessingState) → Stays p p
Stays-refl p = ((λ h. refl), λ h. h)

pub Stays-trans : (p q r : Option ProcessingState) → Stays p q → Stays q r → Stays p r
Stays-trans p q r f g = (λ h. let e = f.0 h in g.0 (ap is_done e ∙ h) ∙ e, λ h. g.1 (f.1 h))

pub Undisturbed-refl : (s : Session) → Undisturbed s s
Undisturbed-refl s k = Stays-refl (state_of (find_state k s))

pub Undisturbed-trans : (s t v : Session) → Undisturbed s t → Undisturbed t v → Undisturbed s v
Undisturbed-trans s t v f g k = Stays-trans _ _ (state_of (find_state k v)) (f k) (g k)

kept-Stays :
    (k : String) (s s' : Session)
    → ((r : StateRow) → find_state k s ≡ some r → find_state k s' ≡ some r)
    → Stays (state_of (find_state k s)) (state_of (find_state k s'))
kept-Stays k s s' kept = elim (Option-cases (find_state k s)) [
  | inl absent ↦ rw absent ((λ h. absurd cc), λ h. absurd cc)
  | inr (r, found) ↦ rw found (rw (kept r found) (Stays-refl (some r.state)))
]

Stays-link :
    (p : ProcessingState) → Stays (some p) (some (if is_requeued p then queued_scrape else p))
Stays-link p = ground arith

module _ ⦃u : Unicode⦄ where
  after_upsert-kept :
      (number : String) (source : SeedSource) (initial : ProcessingState) (s : Session) (k : String)
      (r : StateRow)
      → find_state k s ≡ some r
      → find_state k (after_upsert number source initial s) ≡ some r
  after_upsert-kept number source initial s k r found = elim (Bool-cases (is_known number s)) [
    | inl there ↦ rw there found
    | inr unknown ↦ rw unknown (
        rw (find_key-append state_key k s.states (fresh_state number initial (s.clock s.ticks)))
          (rw ((find_key-some state_key k s.states r found).1) found))
  ]

  record_discovery-Undisturbed :
      (source number reason : String) (code : Option String)
      → Obeys IsSound Undisturbed (record_discovery source number reason code)
  record_discovery-Undisturbed raw_source raw_number reason code s sound =
      elim (Result-cases (normalize_enterprise_number raw_source)) [
        | inr (e, refused) ↦ unfold record_discovery in rw refused (sound, Undisturbed-refl s)
        | inl (source, n) ↦ elim (Result-cases (normalize_enterprise_number raw_number)) [
          | inr (e, refused) ↦
              unfold record_discovery in rw n (rw refused (sound, Undisturbed-refl s))
          | inl (number, m) ↦
              let (d, s', done, rec) =
                record_discovery_lem raw_source raw_number source number reason code s sound n m in
              rw done (
                rec.sound,
                λ k. kept-Stays k s s' (λ r found.
                    ap (find_key state_key k) rec.states
                    ∙ after_upsert-kept number discovered new s k r found),
              )
        ]
      ]

  enqueue-Stays :
      (number : String) (row : StateRow) (s : Session)
      → row.state ≡ state_after_link (find_state number s)
      → Stays (state_of (find_state number s)) (some row.state)
  enqueue-Stays number row s at = elim (Option-cases (find_state number s)) [
    | inl absent ↦ rw absent ((λ h. absurd cc), λ h. absurd cc)
    | inr (r, found) ↦ rw at (rw found (Stays-link r.state))
  ]

  enqueue_if_new-Undisturbed : (raw : String) → Obeys IsSound Undisturbed (enqueue_if_new raw)
  enqueue_if_new-Undisturbed raw s sound = elim (Result-cases (normalize_enterprise_number raw)) [
    | inr (e, refused) ↦ unfold enqueue_if_new in rw refused (sound, Undisturbed-refl s)
    | inl (number, n) ↦
        let (d, s', done, enq) = enqueue_if_new_lem raw number s sound n in
        let (row, there, at) = enq.moved_to in
        rw done (
          enq.sound,
          λ k. elim (Bool-cases (number == k)) [
            | inr other ↦ rw (enq.kept k other) (Stays-refl (state_of (find_state k s)))
            | inl same ↦
                subst (λ j. Stays (state_of (find_state j s)) (state_of (find_state j s')))
                  ((eq_iff number k).0 same) (rw there (enqueue-Stays number row s at))
          ],
        )
  ]

  pub apply_discovery-Undisturbed :
      (raw : String) (candidates : List String) (reason_code : String)
      → Obeys IsSound Undisturbed (apply_discovery_from_parse raw candidates reason_code)
  apply_discovery-Undisturbed =
      apply_discovery-Obeys Undisturbed Undisturbed-trans Undisturbed-refl
        record_discovery-Undisturbed enqueue_if_new-Undisturbed
