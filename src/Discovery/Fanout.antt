-- ===== src/Discovery/Fanout.antt =====
-- The loops of packages/discovery/service.py over candidates and over snapshots.
use airflow_kbo.Prelude.{
  String, ◌≡◌, sym, ◌∙◌, ap, subst, true, false, ◌||◌, some, List, [], ◌∷◌, ◌++◌, ◌==◌, Bool-cases,
  Option-cases, inl, inr, any, All,
}
use mathlib.Core.List.{append-nil, append_assoc}
use airflow_kbo.Text.{Unicode, ◌<>◌}
use airflow_kbo.Action.{Result, ok, err, Result-cases, Exception}
use airflow_kbo.Storage.Paths.{
  normalize_enterprise_number, normalize-IsNumber, normalize_of_IsNumber,
}
use airflow_kbo.Persistence.Table.{find_key-none}
use airflow_kbo.Persistence.Session.{Session, Discovery, state_key, find_state, is_known, IsSound}
use airflow_kbo.Persistence.Records.{record_discovery}
use airflow_kbo.Persistence.Records.Soundness.{record_discovery_lem}
use airflow_kbo.Discovery.{
  EnqueueDecision, is_absent, enqueue_if_new, discover_all, apply_discovery_from_parse,
}
use airflow_kbo.Discovery.Enqueue.{enqueue_if_new_lem}

module _ ⦃u : Unicode⦄ where
  -- A registered enterprise has a state row.
  present_of_known :
      (k : String) (s : Session)
      → IsSound s
      → is_known k s ≡ true
      → is_absent (find_state k s) ≡ false
  present_of_known k s sound known = elim (Option-cases (find_state k s)) [
    | inl absent ↦ absurd (cc (find_key-none state_key k s.states absent, sound.tracked k))
    | inr (row, found) ↦ rw found
  ]

  -- What the loop over candidates leaves: it never raises, the database stays sound, and every
  -- decision says `created = false`.
  abbrev pub Discovers : List EnqueueDecision → Result (List EnqueueDecision) × Session → Type 0
  Discovers before out =
      (ds : List EnqueueDecision) × (out.0 ≡ ok (before ++ ds))
      × IsSound out.1
      × All (λ (d : EnqueueDecision). d.created ≡ false) ds

  discover_all-invalid :
      (source reason_code : String) (seen : List String) (before : List EnqueueDecision)
      (raw : String) (candidates : List String) (s : Session) {e : Exception}
      → normalize_enterprise_number raw ≡ err e
      → discover_all source reason_code seen before (raw ∷ candidates) s
        ≡ discover_all source reason_code seen before candidates s
  unfolding discover_all
  discover_all-invalid source reason_code seen before raw candidates s h = rw (h, discover_all)

  discover_all-seen :
      (source reason_code : String) (seen : List String) (before : List EnqueueDecision)
      (raw number : String) (candidates : List String) (s : Session)
      → normalize_enterprise_number raw ≡ ok number
      → (number == source || any (λ k. k == number) seen) ≡ true
      → discover_all source reason_code seen before (raw ∷ candidates) s
        ≡ discover_all source reason_code seen before candidates s
  unfolding discover_all
  discover_all-seen source reason_code seen before raw number candidates s n h =
      rw (n, discover_all) (rw h)

  discover_all-new :
      (source reason_code : String) (seen : List String) (before : List EnqueueDecision)
      (raw number : String) (candidates : List String) (s s1 s2 : Session) (r : Discovery)
      (d : EnqueueDecision)
      → normalize_enterprise_number raw ≡ ok number
      → (number == source || any (λ k. k == number) seen) ≡ false
      → record_discovery source number ("Link from " <> source <> " parse") (some reason_code) s
        ≡ (ok r, s1)
      → enqueue_if_new number s1 ≡ (ok d, s2)
      → discover_all source reason_code seen before (raw ∷ candidates) s
        ≡ discover_all source reason_code (number ∷ seen) (before ++ d ∷ []) candidates s2
  unfolding discover_all
  discover_all-new source reason_code seen before raw number candidates s s1 s2 r d n h recorded
        enqueued =
      rw (n, discover_all) (rw h (rw recorded (rw enqueued)))

  discover_all_lem :
      (source reason_code : String) (seen : List String) (before : List EnqueueDecision)
      (candidates : List String) (s : Session)
      → IsSound s
      → normalize_enterprise_number source ≡ ok source
      → Discovers before (discover_all source reason_code seen before candidates s)
  discover_all_lem source reason_code seen before [] s sound src =
      unfold discover_all in ([], ap ok (sym (append-nil before)), sound, tt)
  discover_all_lem source reason_code seen before (raw ∷ candidates) s sound src =
      elim (Result-cases (normalize_enterprise_number raw)) [
        | inr (e, refused) ↦
            subst (Discovers before)
              (sym (discover_all-invalid source reason_code seen before raw candidates s refused))
              (discover_all_lem source reason_code seen before candidates s sound src)
        | inl (number, n) ↦ elim (Bool-cases (number == source || any (λ k. k == number) seen)) [
          | inl again ↦
              subst (Discovers before)
                (sym (
                  discover_all-seen source reason_code seen before raw number candidates s n again))
                (discover_all_lem source reason_code seen before candidates s sound src)
          | inr first ↦
              let number_ok = normalize_of_IsNumber number (normalize-IsNumber raw n) in
              let (r, s1, recorded, rec) =
                record_discovery_lem source number source number
                  ("Link from " <> source <> " parse") (some reason_code) s sound src number_ok in
              let (d, s2, enqueued, enq) =
                enqueue_if_new_lem number number s1 rec.sound number_ok in
              let (ds, answer, sound', old) =
                discover_all_lem source reason_code (number ∷ seen) (before ++ d ∷ []) candidates s2
                  enq.sound src in
              subst (Discovers before)
                (sym (
                  discover_all-new source reason_code seen before raw number candidates s s1 s2 r d
                    n first recorded enqueued))
                (
                  d ∷ ds,
                  answer ∙ ap ok (append_assoc before (d ∷ []) ds),
                  sound',
                  (enq.created ∙ present_of_known number s1 rec.sound rec.known, old),
                )
        ]
      ]

  -- The links of a parsed document never make the parse fail on a sound database, which they leave
  -- sound; and no decision ever reports `created`, since the provenance row has registered the
  -- enterprise before `enqueue_if_new` looks for it.
  pub apply_discovery_from_parse_lem :
      (raw source reason_code : String) (candidates : List String) (s : Session)
      → IsSound s
      → normalize_enterprise_number raw ≡ ok source
      → Discovers [] (apply_discovery_from_parse raw candidates reason_code s)
  unfolding apply_discovery_from_parse
  apply_discovery_from_parse_lem raw source reason_code candidates s sound n = rw n (
      discover_all_lem source reason_code [] [] candidates s sound
        (normalize_of_IsNumber source (normalize-IsNumber raw n)))
