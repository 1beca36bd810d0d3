-- ===== src/Acquisition/Batch/Claimed.antt =====
-- worker.py: the loop of a batch over the enterprises that it claimed.
use airflow_kbo.Prelude.{
  ℕ, ◌+◌, String, ◌≡◌, refl, sym, ◌∙◌, ap, subst, Bool, true, false, some, List, [], ◌∷◌, ◌++◌,
  ◌==◌, eq_iff, map, take, length, any, All, arith,
}
use mathlib.Core.List.{append_assoc, append-nil}
use airflow_kbo.Text.{Unicode}
use airflow_kbo.Action.{Result, ok, err}
use airflow_kbo.Persistence.Enums.{queued_scrape, scraping}
use airflow_kbo.Persistence.Session.{Session, state_key, find_state, IsSound}
use airflow_kbo.Persistence.Repositories.{queue, claim_enterprises_for_scrape}
use airflow_kbo.Persistence.Repositories.Queue.{AreQueued, take-queue-AreQueued}
use airflow_kbo.Persistence.Repositories.Claims.Queues.{claim_enterprises_for_scrape_lem}
use airflow_kbo.Persistence.Repositories.Claims.Taken.{Claimed-AreQueued}
use airflow_kbo.Persistence.Life.{state_of}
use airflow_kbo.Acquisition.Worker.{Outside, SourceAdapter}
use airflow_kbo.Acquisition.Batch.{
  Site, ScrapeReport, count_scrape, close_site, scrape_enterprise, scrape_claimed, scrape_batch,
}
use airflow_kbo.Acquisition.Batch.Settled.{is_scraped, ends_in, scrape_enterprise_lem}

close_site_ok :
    {S A : Type 0} (before : Site S) (out : Result A × Site S) (a : A)
    → out.0 ≡ ok a
    → close_site before out ≡ out.1
close_site_ok before (ok a, after) b h = refl
close_site_ok before (err e, after) b h = absurd cc

state_after-scraped : (b : Bool) → is_scraped (some (ends_in b)) ≡ true
state_after-scraped true = refl
state_after-scraped false = refl

-- What a report has gained over numbers that were scraped.
abbrev Adds : List String → ScrapeReport → ScrapeReport → Type 0
Adds ks r r' =
    (r'.claimed ≡ r.claimed)
    × (r'.succeeded + r'.failed ≡ r.succeeded + r.failed + length ks)
    × (r'.enterprises ≡ r.enterprises ++ ks)

count_scrape_lem :
    (number : String) (a : Result Bool) (r : ScrapeReport)
    → Adds (number ∷ []) r (count_scrape number a r)
count_scrape_lem number (ok true) r = (refl, omega arith, refl)
count_scrape_lem number (ok false) r = (refl, omega arith, refl)
count_scrape_lem number (err e) r = (refl, omega arith, refl)

Adds-trans :
    (k : String) (ks : List String) (r t v : ScrapeReport)
    → Adds (k ∷ []) r t
    → Adds ks t v
    → Adds (k ∷ ks) r v
Adds-trans k ks r t v f g = (
  g.0 ∙ f.0,
  omega (arith, f.1, g.1),
  g.2 ∙ ap (λ xs. xs ++ ks) f.2 ∙ append_assoc r.enterprises (k ∷ []) ks,
)

abbrev Kept : List String → Session → Session → Type 0
Kept ks s s' = (k : String) → any (λ j. j == k) ks ≡ false → find_state k s' ≡ find_state k s

module _ ⦃u : Unicode⦄ where
  AreQueued-rest :
      (number : String) (s s' : Session) (ks : List String)
      → any (λ j. j == number) ks ≡ false
      → ((k : String) → (number == k) ≡ false → find_state k s' ≡ find_state k s)
      → AreQueued scraping s ks
      → AreQueued scraping s' ks
  AreQueued-rest number s s' [] absent kept h = tt
  AreQueued-rest number s s' (k ∷ ks) absent kept ((row, found, here), once, ten, rest) =
      let other : (number == k) ≡ false = ground (arith, eq_iff number k, eq_iff k number) in
      (
        (row, kept k other ∙ found, here),
        once,
        ten,
        AreQueued-rest number s s' ks (ground arith) kept rest,
      )

module _ ⦃u : Unicode⦄ {S : Type 0} (o : Outside S) (max_retries : ℕ) (worker_id : String) where
  -- Every listed enterprise has left SCRAPING.
  abbrev pub AreScraped : List String → Session → Type 0
  AreScraped ks s = All (λ k. is_scraped (state_of (find_state k s)) ≡ true) ks

  abbrev IsLoop : List String → ScrapeReport → Site S → ScrapeReport × Site S → Type 0
  IsLoop ks report site out =
      IsSound out.1.session
      × Adds ks report out.0
      × AreScraped ks out.1.session
      × Kept ks site.session out.1.session

  scrape_claimed_lem :
      (adapters : List SourceAdapter) (ks : List String) (report : ScrapeReport) (site : Site S)
      → IsSound site.session
      → AreQueued scraping site.session ks
      → IsLoop ks report site (scrape_claimed o max_retries worker_id adapters ks report site)
  unfolding scrape_claimed
  scrape_claimed_lem adapters [] report site sound h =
      (sound, (refl, omega arith, sym (append-nil report.enterprises)), tt, λ k absent. refl)
  scrape_claimed_lem adapters (k ∷ ks) report site sound ((row, found, here), once, ten, rest) =
      let out = scrape_enterprise o max_retries worker_id k adapters site in
      let (b, answer, sound', ended, others) =
        scrape_enterprise_lem o max_retries worker_id k adapters row site sound ten found here in
      let report' = count_scrape k out.0 report in
      let (sound'', adds, scraped, kept) =
        scrape_claimed_lem adapters ks report' out.1 sound'
          (AreQueued-rest k site.session out.1.session ks once others rest) in
      let done : IsLoop (k ∷ ks) report site
          (scrape_claimed o max_retries worker_id adapters ks report' out.1) =
        (
          sound'',
          Adds-trans k ks report report' _ (count_scrape_lem k out.0 report) adds,
          (
            ap (λ r. is_scraped (state_of r)) (kept k once)
                ∙ ap is_scraped ended
                ∙ state_after-scraped b,
            scraped,
          ),
          λ j absent. kept j (ground arith) ∙ others j (ground arith),
        ) in
      subst
        (λ t.
          IsLoop (k ∷ ks) report site
            (scrape_claimed o max_retries worker_id adapters ks report' t))
        (sym (close_site_ok site out b answer)) done

  abbrev pub IsScrapedBatch : List String → Result ScrapeReport × Site S → Type 0
  IsScrapedBatch numbers out =
      (report : ScrapeReport) × (out.0 ≡ ok report)
      × IsSound out.1.session
      × (report.claimed ≡ length numbers)
      × (report.succeeded + report.failed ≡ length numbers)
      × (report.enterprises ≡ numbers)
      × AreScraped numbers out.1.session

  -- Whatever the sites and the store answer, on a sound database a batch of scrapes without requested
  -- numbers returns a report: it takes the oldest `limit` enterprises of the scrape queue, counts each
  -- of them once, as a success or as a failure, and leaves each in QUEUED_PARSE or FAILED_SCRAPE; the
  -- database stays sound.
  pub scrape_batch_lem :
      (limit : ℕ) (adapters : List SourceAdapter) (site : Site S)
      → IsSound site.session
      → IsScrapedBatch
          (map state_key (take limit (queue queued_scrape site.session)))
          (scrape_batch o max_retries worker_id limit [] adapters site)
  unfolding scrape_batch
  scrape_batch_lem limit adapters site sound =
      let s = site.session in
      let numbers = map state_key (take limit (queue queued_scrape s)) in
      let (answer, sound', claim) = claim_enterprises_for_scrape_lem limit worker_id 300 s sound in
      let s' = (claim_enterprises_for_scrape limit worker_id 300 [] s).1 in
      let start : ScrapeReport = record {
        claimed = length numbers;
        succeeded = 0;
        failed = 0;
        enterprises = [];
      } in
      let (sound'', adds, scraped, kept) =
        scrape_claimed_lem adapters numbers start (record site { session = s' }) sound'
          (Claimed-AreQueued numbers queued_scrape scraping worker_id _ s s' claim
            (take-queue-AreQueued queued_scrape s limit sound)) in
      rw answer (
        (scrape_claimed o max_retries worker_id adapters numbers start
            (record site { session = s' })).0,
        refl,
        sound'',
        adds.0,
        omega (arith, adds.1),
        adds.2,
        scraped,
      )
