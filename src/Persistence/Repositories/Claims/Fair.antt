-- ===== src/Persistence/Repositories/Claims/Fair.antt =====
-- The claims of packages/persistence/repositories.py: who is taken, and what becomes of them.
use airflow_kbo.Prelude.{ℕ, ◌+◌, ◌*◌, String, ◌≡◌, List, [], ◌∷◌, map, keep, any, take, ◌==◌}
use airflow_kbo.Text.{Unicode}
use airflow_kbo.Action.{ok}
use airflow_kbo.Persistence.Enums.{queued_scrape, scraping, queued_parse, parsing}
use airflow_kbo.Persistence.Session.{Session, StateRow, state_key, IsSound}
use airflow_kbo.Persistence.Repositories.{
  queue, claim_enterprises_for_parse, claim_enterprises_for_scrape, normalize_all,
}
use airflow_kbo.Persistence.Repositories.Oldest.{
  AreOldest, AreChosen, take-queue-AreOldest, keep-queue-AreChosen,
}
use airflow_kbo.Persistence.Repositories.Claims.{IsClaim}
use airflow_kbo.Persistence.Repositories.Claims.Queues.{
  claim_enterprises_for_parse_lem, claim_enterprises_for_scrape_lem,
  claim_enterprises_for_scrape_requested,
}

module _ ⦃u : Unicode⦄ where
  -- On a sound database a claim for parsing cannot fail. It answers enterprises in QUEUED_PARSE that no
  -- other transaction holds, `limit` at most; none that is free is passed over for a younger one, nor
  -- while the limit is not reached. Each of them is then in PARSING with the worker as owner, the
  -- lock until `lock_seconds` after the start of the claim, and a version that is one more; all
  -- other rows and tables stay as they were, and the database stays sound.
  pub claim_enterprises_for_parse-Oldest :
      (limit : ℕ) (worker_id : String) (lock_seconds : ℕ) (s : Session)
      → IsSound s
      → (numbers : List String) × AreOldest queued_parse s limit numbers
        × IsClaim numbers parsing worker_id
            (s.clock s.ticks + lock_seconds * 1_000_000)
            s
            (claim_enterprises_for_parse limit worker_id lock_seconds s)
  claim_enterprises_for_parse-Oldest limit worker_id lock_seconds s sound = (
    map state_key (take limit (queue queued_parse s)),
    take-queue-AreOldest queued_parse s limit sound,
    claim_enterprises_for_parse_lem limit worker_id lock_seconds s sound,
  )

  -- On a sound database a claim for scraping without requested numbers cannot fail. It answers
  -- enterprises in QUEUED_SCRAPE that no other transaction holds, `limit` at most; none that is free
  -- is passed over for a younger one, nor while the limit is not reached. Each of them is then in
  -- SCRAPING with the worker as owner, the lock until `lock_seconds` after the start of the claim,
  -- and a version that is one more; all other rows and tables stay as they were, and the database
  -- stays sound.
  pub claim_enterprises_for_scrape-Oldest :
      (limit : ℕ) (worker_id : String) (lock_seconds : ℕ) (s : Session)
      → IsSound s
      → (numbers : List String) × AreOldest queued_scrape s limit numbers
        × IsClaim numbers scraping worker_id
            (s.clock s.ticks + lock_seconds * 1_000_000)
            s
            (claim_enterprises_for_scrape limit worker_id lock_seconds [] s)
  claim_enterprises_for_scrape-Oldest limit worker_id lock_seconds s sound = (
    map state_key (take limit (queue queued_scrape s)),
    take-queue-AreOldest queued_scrape s limit sound,
    claim_enterprises_for_scrape_lem limit worker_id lock_seconds s sound,
  )

  -- On a sound database a claim for scraping with requested numbers that all normalise cannot fail,
  -- and takes no notice of the limit. It answers those of the requested enterprises that are in
  -- QUEUED_SCRAPE and that no other transaction holds, all of them and no others. Each of them is
  -- then in SCRAPING with the worker as owner, the lock until `lock_seconds` after the start of the
  -- claim, and a version that is one more; all other rows and tables stay as they were, and the
  -- database stays sound.
  pub claim_enterprises_for_scrape-Chosen :
      (limit : ℕ) (worker_id : String) (lock_seconds : ℕ) (requested : String)
      (others wanted : List String) (s : Session)
      → IsSound s
      → normalize_all (requested ∷ others) ≡ ok wanted
      → (numbers : List String) × AreChosen queued_scrape s wanted numbers
        × IsClaim numbers scraping worker_id
            (s.clock s.ticks + lock_seconds * 1_000_000)
            s
            (claim_enterprises_for_scrape limit worker_id lock_seconds (requested ∷ others) s)
  claim_enterprises_for_scrape-Chosen limit worker_id lock_seconds requested others wanted s sound
        n =
      (
        map state_key (
            keep (λ (r : StateRow). any (λ k. k == r.enterprise_number) wanted)
              (queue queued_scrape s)),
        keep-queue-AreChosen queued_scrape s wanted sound,
        claim_enterprises_for_scrape_requested limit worker_id lock_seconds requested others wanted
            s sound n,
      )
