-- ===== src/Discovery/Enqueue.antt =====
-- `enqueue_if_new` of packages/discovery/service.py, on every branch.
use airflow_kbo.Prelude.{
  String, ◌≡◌, refl, sym, ap, ◌∙◌, Bool, true, false, Option, none, some, arith, ◌==◌, eq_iff,
  if◌then◌else◌, Bool-cases, Option-cases, inl, inr,
}
use airflow_kbo.Text.{Unicode}
use airflow_kbo.Action.{ok}
use airflow_kbo.Storage.Paths.{
  normalize_enterprise_number, IsNumber, normalize-IsNumber, normalize_of_IsNumber,
}
use airflow_kbo.Persistence.Enums.{
  ProcessingState, discovered, new, queued_scrape, scraping, raw_stored, queued_parse, parsing,
  structured, failed_scrape, failed_parse, failed_validate,
}
use airflow_kbo.Persistence.Table.{find_key, has_key, find_key-none, find_key-some, find_key-append}
use airflow_kbo.Persistence.Session.{Session, StateRow, state_key, find_state, is_known, IsSound}
use airflow_kbo.Persistence.Repositories.{fresh_state, moved}
use airflow_kbo.Persistence.Repositories.Transition.{
  transition_state_lem, after_transition, after_transition-IsSound, find-after,
}
use airflow_kbo.Persistence.Repositories.Claims.{find-after_ne}
use airflow_kbo.Persistence.Repositories.Upsert.{
  upsert_enterprise_lem, registered, registered-IsSound,
}
use airflow_kbo.Discovery.{
  EnqueueDecision, terminal_or_done, is_requeued, is_absent, decide_enqueue, enqueue_if_new,
}

-- The states in which a link puts an enterprise on the scrape queue: not begun, or failed.
abbrev pub waits_or_failed : ProcessingState → Bool
waits_or_failed new = true
waits_or_failed queued_scrape = false
waits_or_failed scraping = false
waits_or_failed raw_stored = false
waits_or_failed queued_parse = false
waits_or_failed parsing = false
waits_or_failed structured = false
waits_or_failed failed_scrape = true
waits_or_failed failed_parse = true
waits_or_failed failed_validate = false

requeued_lem : (p : ProcessingState) → is_requeued p ≡ waits_or_failed p
requeued_lem new = refl
requeued_lem queued_scrape = refl
requeued_lem scraping = refl
requeued_lem raw_stored = refl
requeued_lem queued_parse = refl
requeued_lem parsing = refl
requeued_lem structured = refl
requeued_lem failed_scrape = refl
requeued_lem failed_parse = refl
requeued_lem failed_validate = refl

-- The state of an enterprise after its number was met in a link.
abbrev pub state_after_link : Option StateRow → ProcessingState
state_after_link none = queued_scrape
state_after_link (some row) = if waits_or_failed row.state then queued_scrape else row.state

-- The row put on the queue by a link: a new one, or one that had failed or waited.
abbrev pub is_put_on_queue : Option StateRow → Bool
is_put_on_queue none = true
is_put_on_queue (some row) = waits_or_failed row.state

-- What an enqueue leaves.
pub record Enqueued ⦃u : Unicode⦄ (number : String) (s : Session) (d : EnqueueDecision)
    (s' : Session) : Type 0 where
  pub sound : IsSound s'
  pub named : d.enterprise_number ≡ number
  pub created : d.created ≡ is_absent (find_state number s)
  pub queued : d.queued ≡ is_put_on_queue (find_state number s)
  pub moved_to :
      (row : StateRow) × (find_state number s' ≡ some row)
      × (row.state ≡ state_after_link (find_state number s))
  pub unchanged :
      (row : StateRow) → find_state number s ≡ some row → waits_or_failed row.state ≡ false → s' ≡ s
  pub kept : (k : String) → (number == k) ≡ false → find_state k s' ≡ find_state k s

exclusive : (p : ProcessingState) → terminal_or_done p ≡ true → is_requeued p ≡ false
exclusive p h = ground arith

stored_once : {o : Option StateRow} {a b : StateRow} → o ≡ some a → o ≡ some b → a ≡ b
stored_once e f = cc

module _ ⦃u : Unicode⦄ where
  -- The decision from a state row that is there.
  decide_enqueue_lem :
      (number : String) (created : Bool) (row : StateRow) (s : Session)
      → IsSound s
      → IsNumber number
      → find_state number s ≡ some row
      → (d : EnqueueDecision) × (s' : Session) × (decide_enqueue number number created s
          ≡ (ok d, s'))
        × (d.created ≡ created)
        × (d.queued ≡ is_requeued row.state)
        × (d.enterprise_number ≡ number)
        × IsSound s'
        × ((row' : StateRow) × (find_state number s' ≡ some row')
            × (row'.state ≡ state_after_link (some row)))
        × (is_requeued row.state ≡ false → s' ≡ s)
        × ((k : String) → (number == k) ≡ false → find_state k s' ≡ find_state k s)
  unfolding decide_enqueue find_key
  decide_enqueue_lem number created row s sound ten found =
      elim (Bool-cases (is_requeued row.state)) [
        | inl back ↦
            let out : terminal_or_done row.state ≡ false = ground (arith, exclusive row.state) in
            let s1 = after_transition number row row.state queued_scrape none none s in
            (
              record { enterprise_number = number; created = created; queued = true },
              s1,
              rw (found, decide_enqueue)
                  (rw out (
                    rw back (
                      rw (
                        transition_state_lem number number row row.state queued_scrape none none s
                          sound (normalize_of_IsNumber number ten) found refl)))),
              refl,
              sym back,
              refl,
              after_transition-IsSound number row row.state queued_scrape none none s sound,
              (
                moved row queued_scrape none none (s.clock s.ticks) row,
                find-after number row row.state queued_scrape none none s found refl,
                rw (sym (requeued_lem row.state) ∙ back),
              ),
              λ stays. absurd cc,
              λ k other. find-after_ne number k row row.state queued_scrape none none s other,
            )
        | inr stays ↦ (
          record { enterprise_number = number; created = created; queued = false },
          s,
          rw (found, decide_enqueue) (rw stays (ground arith)),
          refl,
          sym stays,
          refl,
          sound,
          (row, found, rw (sym (requeued_lem row.state) ∙ stays)),
          λ _. refl,
          λ k other. refl,
        )
      ]

  new_row :
      (number : String) (s : Session)
      → has_key state_key number s.states ≡ false
      → find_state number (registered number discovered new s)
        ≡ some (fresh_state number new (s.clock s.ticks))
  new_row number s absent = ground (
    arith,
    find_key-append state_key number s.states (fresh_state number new (s.clock s.ticks)),
    eq_iff number number,
  )

  old_row :
      (number k : String) (s : Session)
      → (number == k) ≡ false
      → find_state k (registered number discovered new s) ≡ find_state k s
  old_row number k s other = elim (Option-cases (find_state k s)) [
    | inl absent ↦ ground (
      arith,
      find_key-append state_key k s.states (fresh_state number new (s.clock s.ticks)),
      find_key-none state_key k s.states absent,
      absent,
    )
    | inr (r, found) ↦ ground (
      arith,
      find_key-append state_key k s.states (fresh_state number new (s.clock s.ticks)),
      find_key-some state_key k s.states r found,
    )
  ]

  -- On a sound database a link to an enterprise returns a decision. An enterprise that is not
  -- registered is registered and put on the scrape queue; one in NEW, FAILED_SCRAPE or FAILED_PARSE
  -- is put on that queue; in any other state nothing at all changes. The decision says whether it
  -- was created and whether it was queued. The rows of other enterprises stay, and the database
  -- stays sound.
  pub enqueue_if_new_lem :
      (raw number : String) (s : Session)
      → IsSound s
      → normalize_enterprise_number raw ≡ ok number
      → (d : EnqueueDecision) × (s' : Session) × (enqueue_if_new raw s ≡ (ok d, s'))
        × Enqueued number s d s'
  unfolding enqueue_if_new find_key
  enqueue_if_new_lem raw number s sound n =
      let ten = normalize-IsNumber raw n in
      let (e, upserted, named, known, sound1) =
        upsert_enterprise_lem number number discovered new s sound
          (normalize_of_IsNumber number ten) in
      elim (Option-cases (find_state number s)) [
        | inr (row, found) ↦
            let there : is_known number s ≡ true =
              sym (sound.tracked number) ∙ (find_key-some state_key number s.states row found).1 in
            let (d, s', decided, c, q, m, sound', moved_to, same, kept) =
              decide_enqueue_lem number false row s sound ten found in
            (
              d,
              s',
              rw n (rw upserted (rw named (rw found (rw there decided)))),
              record {
                sound = sound';
                named = m;
                created = c ∙ rw found;
                queued = q ∙ requeued_lem row.state ∙ rw found;
                moved_to = rw found moved_to;
                unchanged = λ r at calm. same (
                    requeued_lem row.state
                    ∙ ap (λ (x : StateRow). waits_or_failed x.state) (stored_once found at)
                    ∙ calm);
                kept = kept;
              },
            )
        | inl absent ↦
            let unknown : is_known number s ≡ false =
              sym (sound.tracked number) ∙ find_key-none state_key number s.states absent in
            let row = fresh_state number new (s.clock s.ticks) in
            let found : find_state number (registered number discovered new s) ≡ some row =
              new_row number s (find_key-none state_key number s.states absent) in
            let s1 = registered number discovered new s in
            let (d, s', decided, c, q, m, sound', moved_to, same, kept) =
              decide_enqueue_lem number true row s1
                (registered-IsSound number discovered new s sound ten unknown) ten found in
            (
              d,
              s',
              rw n (rw upserted (rw named (rw absent (rw unknown decided)))),
              record {
                sound = sound';
                named = m;
                created = c ∙ rw absent;
                queued = q ∙ rw absent;
                moved_to = rw absent moved_to;
                unchanged = λ r at calm. absurd (cc (absent, at));
                kept = λ k other. kept k other ∙ old_row number k s other;
              },
            )
      ]
