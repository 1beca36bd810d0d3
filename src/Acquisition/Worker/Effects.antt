-- ===== src/Acquisition/Worker/Effects.antt =====
-- worker.py: what one enterprise's scrape leaves alone, and what it stores.
use airflow_kbo.Prelude.{
  ℕ, zero, suc, String, ◌≡◌, refl, Bool, true, false, not, Option, List, [], ◌∷◌, if◌then◌else◌,
  Bool-cases, inl, inr, All,
}
use airflow_kbo.Text.{Unicode}
use airflow_kbo.Action.{Action, pure, raise, ◌>>◌, Keeps, Keeps-bind, captcha_blocked}
use airflow_kbo.Acquisition.Models.{
  FetchJob, FetchResult, ValidationAction, store, drop, retry, Reason, unknown, captcha_suspect,
  ValidationDecision, is_captcha,
}
use airflow_kbo.Acquisition.Validate.{validate_fetch}
use airflow_kbo.Acquisition.Validate.Laws.{IsAcceptable, validate_fetch_lem}
use airflow_kbo.Acquisition.Tor.{KboEgressLane, Coordinator}
use airflow_kbo.Acquisition.Worker.{
  Outside, Event, attempted, fetched, stored, failed, succeeded, Run, SourceAdapter, Progress, note,
  outside, fetch_job, store_job, settle_action, settle, attempts, process_job, scrape_jobs,
  scrape_all, scrape_one_enterprise_for_source, is_stored_already, after_job, leaves_lane,
  lane_default, outcome_of, or_else, is_some_lane,
}

abbrev is_stored_event : Event → Bool
is_stored_event (stored job result) = true
is_stored_event _ = false

module _ ⦃u : Unicode⦄ {S : Type 0} where
  -- A property of a run that lasts through the worker's effects, where a store is always of a
  -- response that may be stored.
  pub record Lasts (o : Outside S) (I : Run S → Type 0) : Type 1 where
    pub on_note : (e : Event) → is_stored_event e ≡ false → Keeps I (note e)
    pub on_fetch :
        (job : FetchJob) (n : ℕ) (lane : Option KboEgressLane)
        → Keeps I (outside (o.fetch job n lane))
    pub on_store :
        (job : FetchJob) (r : FetchResult) (n status : ℕ) (body : List ℕ)
        → IsAcceptable r status body
        → Keeps I (store_job o job r n)

module _ ⦃u : Unicode⦄ {S : Type 0} (o : Outside S) (I : Run S → Type 0) (lasts : Lasts o I) where
  pure-Keeps : {A : Type 0} (a : A) → Keeps I (pure a)
  pure-Keeps a s i = i

  raise-Keeps :
      {A : Type 0} (b : Bool) (a : A) → Keeps I (if b then raise captcha_blocked else pure a)
  raise-Keeps true a s i = i
  raise-Keeps false a s i = i

  -- The notes at the end of a job.
  conclude-Keeps :
      (e : Event) (a : Bool × Reason) → is_stored_event e ≡ false → Keeps I (note e >> pure a)
  conclude-Keeps e a plain =
      Keeps-bind I (note e) (λ _. pure a) (lasts.on_note e plain) (λ _. pure-Keeps a)

  settle_action-Keeps :
      (job : FetchJob) (n : ℕ) (r : FetchResult) (again : Action (Run S) (Bool × Reason))
      (reason : Reason)
      → Keeps I again
      → (a : ValidationAction)
      → (a ≡ store → (status : ℕ) × (body : List ℕ) × IsAcceptable r status body)
      → Keeps I (settle_action o job n r reason again a)
  unfolding settle_action
  settle_action-Keeps job n r again reason k store good =
      let (status, body, fine) = good refl in
      Keeps-bind I (store_job o job r n) _ (lasts.on_store job r n status body fine)
        (λ _. conclude-Keeps (succeeded job.source) (true, reason) refl)
  settle_action-Keeps job n r again reason k drop good =
      conclude-Keeps (failed job.source reason) (false, reason) refl
  settle_action-Keeps job n r again reason k retry good = k

  settle-Keeps :
      (job : FetchJob) (abort : Bool) (n : ℕ) (r : FetchResult)
      (again : Action (Run S) (Bool × Reason))
      → Keeps I again
      → (d : ValidationDecision)
      → (d.action ≡ store → (status : ℕ) × (body : List ℕ) × IsAcceptable r status body)
      → Keeps I (settle o job abort n r d again)
  unfolding settle
  settle-Keeps job abort n r again k d good = elim (Bool-cases (is_captcha d.reason_code)) [
    | inl captcha ↦
        rw (captcha, settle)
          (Keeps-bind I (note (failed job.source captcha_suspect))
            (λ _.
              if abort
              then raise captcha_blocked
              else pure {A = Bool × Reason} (false, d.reason_code))
            (lasts.on_note (failed job.source captcha_suspect) refl)
            (λ _. raise-Keeps {A = Bool × Reason} abort (false, d.reason_code)))
    | inr other ↦
        rw (other, settle) (settle_action-Keeps job n r again d.reason_code k d.action good)
  ]

  fetch_job-Keeps :
      (job : FetchJob) (n : ℕ) (lane : Option KboEgressLane) → Keeps I (fetch_job o job n lane)
  unfolding fetch_job
  fetch_job-Keeps job n lane =
      Keeps-bind I (note (fetched job)) (λ _. outside (o.fetch job n lane))
        (lasts.on_note (fetched job) refl) (λ _. lasts.on_fetch job n lane)

  attempts-Keeps :
      (left n : ℕ) (last : Reason) (job : FetchJob) (lane : Option KboEgressLane) (abort : Bool)
      → Keeps I (attempts o left n last job lane abort)
  unfolding attempts
  attempts-Keeps zero n last job lane abort =
      conclude-Keeps (failed job.source last) (false, last) refl
  attempts-Keeps (suc left) n last job lane abort =
      Keeps-bind I (fetch_job o job n lane) _ (fetch_job-Keeps job n lane) (λ r.
        settle-Keeps job abort n r _
          (attempts-Keeps left (suc n) (validate_fetch r).reason_code job lane abort)
          (validate_fetch r) (validate_fetch_lem r))

  module _ (max_retries : ℕ) where
    process_job-Keeps :
        (job : FetchJob) (lane : Option KboEgressLane) (b : Option Bool)
        → Keeps I (process_job o max_retries job lane b)
    unfolding process_job
    process_job-Keeps job lane b =
        let abort = or_else b (not (is_some_lane lane)) in
        Keeps-bind I (note (attempted job.source))
          (λ _. attempts o max_retries 1 unknown job lane abort)
          (lasts.on_note (attempted job.source) refl)
          (λ _. attempts-Keeps max_retries 1 unknown job lane abort)

    scrape_jobs-Keeps :
        (jobs : List FetchJob) (number : String) (lane : Option KboEgressLane)
        (existing : Option (List (String × String))) (b : Option Bool) (p : Progress)
        → Keeps I (scrape_jobs o max_retries jobs number lane existing b p)
    unfolding scrape_jobs
    scrape_jobs-Keeps [] number lane existing b p = pure-Keeps p
    scrape_jobs-Keeps (job ∷ jobs) number lane existing b p =
        elim (Bool-cases (is_stored_already existing number job.doc_type)) [
          | inl here ↦ rw (here, scrape_jobs) (scrape_jobs-Keeps jobs number lane existing b _)
          | inr fresh ↦
              rw (fresh, scrape_jobs)
                (Keeps-bind I (process_job o max_retries job lane (lane_default lane b)) _
                  (process_job-Keeps job lane (lane_default lane b))
                  (λ r. elim (Bool-cases (leaves_lane lane r)) [
                    | inl leave ↦ rw leave (pure-Keeps (after_job p r))
                    | inr stay ↦
                        rw stay (scrape_jobs-Keeps jobs number lane existing b (after_job p r))
                  ]))
        ]

    scrape_all-Keeps :
        (jobs : List FetchJob) (number source : String) (lane : Option KboEgressLane)
        (existing : Option (List (String × String))) (b : Option Bool)
        → Keeps I (scrape_all o max_retries jobs number source lane existing b)
    unfolding scrape_all
    scrape_all-Keeps [] number source lane existing b = λ s i. i
    scrape_all-Keeps (job ∷ jobs) number source lane existing b =
        Keeps-bind I (scrape_jobs o max_retries (job ∷ jobs) number lane existing b _) _
          (scrape_jobs-Keeps (job ∷ jobs) number lane existing b _)
          (λ p. pure-Keeps (outcome_of number source p))

    -- The scrape of one enterprise keeps every property that lasts.
    pub scrape_one-Keeps :
        (number : String) (adapter : SourceAdapter) (source : String) (lane : Option KboEgressLane)
        (existing : Option (List (String × String))) (b : Option Bool)
        → Keeps I
            (scrape_one_enterprise_for_source o max_retries number adapter source lane existing b)
    unfolding scrape_one_enterprise_for_source
    scrape_one-Keeps number adapter source lane existing b =
        scrape_all-Keeps (adapter.build_urls number) number source lane existing b

module _ ⦃u : Unicode⦄ where
  -- Every stored response was acceptable.
  pub IsGood : Event → Type 0
  IsGood (stored job r) = (status : ℕ) × (body : List ℕ) × IsAcceptable r status body
  IsGood _ = Unit

  plain-IsGood : (e : Event) → is_stored_event e ≡ false → IsGood e
  unfolding IsGood
  plain-IsGood (stored job r) h = absurd cc
  plain-IsGood (attempted _) h = tt
  plain-IsGood (fetched _) h = tt
  plain-IsGood (failed _ _) h = tt
  plain-IsGood (succeeded _) h = tt

module _ ⦃u : Unicode⦄ {S : Type 0} where
  unfoldable pub HasGoodStores : Run S → Type 0
  HasGoodStores s = All IsGood s.events

  pub good-Lasts : (o : Outside S) → Lasts o HasGoodStores
  unfolding HasGoodStores store_job IsGood
  good-Lasts o = record {
    on_note = λ e plain s i. (plain-IsGood e plain, i);
    on_fetch = λ job n lane s i. i;
    on_store = λ job r n status body fine s i.
        Keeps-bind HasGoodStores (note (stored job r)) (λ _. outside (o.store_raw_bundle job r n))
          (λ s i. ((status, body, fine), i)) (λ _ s i. i) s i;
  }

  pub coordinator-Lasts : (o : Outside S) (c : Coordinator) → Lasts o (λ s. s.coordinator ≡ c)
  unfolding store_job
  coordinator-Lasts o c = record {
    on_note = λ e plain s i. i;
    on_fetch = λ job n lane s i. i;
    on_store = λ job r n status body fine s i.
        Keeps-bind (λ s. s.coordinator ≡ c) (note (stored job r))
          (λ _. outside (o.store_raw_bundle job r n)) (λ s i. i) (λ _ s i. i) s i;
  }

  -- Whatever a source answers, on whatever lane and with whatever exceptions, the scrape of an
  -- enterprise hands to the raw store, also when that raises, only responses without an error, with a
  -- 2xx status and with a body that is not empty; one that passes for HTML has 64 bytes at least, and
  -- none of the captcha and error markers. It is so after the scrape when it was so before.
  pub scrape_one-HasGoodStores :
      (o : Outside S) (max_retries : ℕ) (number : String) (adapter : SourceAdapter)
      (source : String) (lane : Option KboEgressLane) (existing : Option (List (String × String)))
      (b : Option Bool) (s : Run S)
      → HasGoodStores s
      → HasGoodStores
          (scrape_one_enterprise_for_source o max_retries number adapter source lane existing b s).1
  scrape_one-HasGoodStores o max_retries number adapter source lane existing b =
      scrape_one-Keeps o HasGoodStores (good-Lasts o) max_retries number adapter source lane
        existing b
