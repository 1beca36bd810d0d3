-- ===== src/Persistence/Repositories/Claims/Queues.antt =====
-- The three claims of packages/persistence/repositories.py: from which queue they take.
use airflow_kbo.Prelude.{
  refl, Bool, ℕ, ◌+◌, ◌*◌, String, ◌≡◌, List, [], ◌∷◌, map, ◌==◌, take, any, keep,
}
use airflow_kbo.Text.{Unicode}
use airflow_kbo.Action.{ok}
use airflow_kbo.Persistence.Enums.{queued_scrape, scraping, queued_parse, parsing}
use airflow_kbo.Persistence.Session.{Session, StateRow, state_key, IsSound}
use airflow_kbo.Persistence.Repositories.{
  queue, claim_enterprises_for_parse, claim_enterprises_for_scrape, select_for_scrape,
  normalize_all,
}
use airflow_kbo.Persistence.Repositories.Queue.{take-queue-AreQueued, keep-queue-AreQueued}
use airflow_kbo.Persistence.Repositories.Claims.{IsClaim, take_claims_lem}

module _ ⦃u : Unicode⦄ where
  -- A claim for parsing takes the oldest `limit` enterprises of the queue QUEUED_PARSE that no
  -- other transaction holds, moves each to PARSING under the worker's lock with its version raised
  -- by one, leaves every other row as it was, and cannot fail on a sound database.
  pub claim_enterprises_for_parse_lem :
      (limit : ℕ) (worker_id : String) (lock_seconds : ℕ) (s : Session)
      → IsSound s
      → IsClaim
          (map state_key (take limit (queue queued_parse s)))
          parsing
          worker_id
          (s.clock s.ticks + lock_seconds * 1_000_000)
          s
          (claim_enterprises_for_parse limit worker_id lock_seconds s)
  unfolding claim_enterprises_for_parse
  claim_enterprises_for_parse_lem limit worker_id lock_seconds s sound =
      take_claims_lem (map state_key (take limit (queue queued_parse s))) queued_parse parsing
        worker_id lock_seconds s sound (take-queue-AreQueued queued_parse s limit sound)

  -- Without requested numbers, a claim for scraping takes the oldest `limit` enterprises of the queue
  -- QUEUED_SCRAPE that no other transaction holds, moves each to SCRAPING under the worker's lock
  -- with its version raised by one, leaves every other row as it was, and cannot fail on a sound
  -- database, which it leaves sound.
  pub claim_enterprises_for_scrape_lem :
      (limit : ℕ) (worker_id : String) (lock_seconds : ℕ) (s : Session)
      → IsSound s
      → IsClaim
          (map state_key (take limit (queue queued_scrape s)))
          scraping
          worker_id
          (s.clock s.ticks + lock_seconds * 1_000_000)
          s
          (claim_enterprises_for_scrape limit worker_id lock_seconds [] s)
  unfolding claim_enterprises_for_scrape select_for_scrape
  claim_enterprises_for_scrape_lem limit worker_id lock_seconds s sound =
      take_claims_lem (map state_key (take limit (queue queued_scrape s))) queued_scrape scraping
        worker_id lock_seconds s sound (take-queue-AreQueued queued_scrape s limit sound)

  select_requested :
      (limit : ℕ) (requested : String) (others wanted : List String) (s : Session)
      → normalize_all (requested ∷ others) ≡ ok wanted
      → select_for_scrape limit (requested ∷ others) s ≡ (
        ok (
            map state_key (
              keep
                (λ (r : StateRow). any (λ k. k == r.enterprise_number) wanted)
                (queue queued_scrape s))),
        s,
      )
  unfolding select_for_scrape
  select_requested limit requested others wanted s n = rw (n, select_for_scrape) refl

  -- With requested numbers that all normalise, a claim for scraping takes those of the queue
  -- QUEUED_SCRAPE that are among them, oldest first and without a limit; the other requested numbers
  -- are left out silently. It moves each taken row to SCRAPING under the worker's lock with its
  -- version raised by one, leaves every other row as it was, and cannot fail on a sound database.
  pub claim_enterprises_for_scrape_requested :
      (limit : ℕ) (worker_id : String) (lock_seconds : ℕ) (requested : String)
      (others wanted : List String) (s : Session)
      → IsSound s
      → normalize_all (requested ∷ others) ≡ ok wanted
      → IsClaim
          (map state_key (
            keep
              (λ (r : StateRow). any (λ k. k == r.enterprise_number) wanted)
              (queue queued_scrape s)))
          scraping
          worker_id
          (s.clock s.ticks + lock_seconds * 1_000_000)
          s
          (claim_enterprises_for_scrape limit worker_id lock_seconds (requested ∷ others) s)
  unfolding claim_enterprises_for_scrape
  claim_enterprises_for_scrape_requested limit worker_id lock_seconds requested others wanted s
        sound n =
      let p : StateRow → Bool = λ r. any (λ k. k == r.enterprise_number) wanted in
      rw (select_requested limit requested others wanted s n) (
        take_claims_lem (map state_key (keep p (queue queued_scrape s))) queued_scrape scraping
          worker_id lock_seconds s sound (keep-queue-AreQueued queued_scrape s p sound))
