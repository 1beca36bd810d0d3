-- ===== src/Extraction/Worker/Batch.antt =====
-- packages/extraction/worker.py: a batch of parses.
use airflow_kbo.Prelude.{
  ℕ, ◌+◌, String, ◌≡◌, refl, sym, ◌∙◌, ap, subst, true, false, some, List, [], ◌∷◌, ◌++◌, ◌==◌,
  eq_iff, map, take, length, any, All, arith,
}
use mathlib.Core.List.{append_assoc, append-nil}
use airflow_kbo.Text.{Unicode}
use airflow_kbo.Action.{Result, ok, err}
use airflow_kbo.Payload.{Dict}
use airflow_kbo.Persistence.Enums.{queued_parse, parsing}
use airflow_kbo.Persistence.Session.{Session, state_key, find_state, IsSound}
use airflow_kbo.Persistence.Repositories.{queue, claim_enterprises_for_parse}
use airflow_kbo.Persistence.Repositories.Queue.{AreQueued, take-queue-AreQueued}
use airflow_kbo.Persistence.Repositories.Claims.Queues.{claim_enterprises_for_parse_lem}
use airflow_kbo.Persistence.Repositories.Claims.Taken.{Claimed-AreQueued}
use airflow_kbo.Persistence.Life.{state_of}
use airflow_kbo.Discovery.Undisturbed.{Stays, Stays-refl, Stays-trans, is_settled}
use airflow_kbo.Extraction.Parse.{ExtractionConfig, Parsers}
use airflow_kbo.Extraction.Worker.{
  Outcome, succeeded, failed, ParseBatchReport, count_outcome, close, parse_enterprise, parse_all,
  parse_batch,
}
use airflow_kbo.Extraction.Worker.Settled.{
  OthersStay, state_after, row_of_state, parse_enterprise_lem,
}

close_ok :
    {A : Type 0} (before : Session) (out : Result A × Session) (a : A)
    → out.0 ≡ ok a
    → close before out ≡ out.1
close_ok before (ok a, after) b h = refl
close_ok before (err e, after) b h = absurd cc

state_after-settled : (o : Outcome) → is_settled (some (state_after o)) ≡ true
state_after-settled succeeded = refl
state_after-settled (failed reason) = refl

-- What a report has gained over numbers that were parsed.
abbrev pub Adds : List String → ParseBatchReport → ParseBatchReport → Type 0
Adds ks r r' =
    (r'.claimed ≡ r.claimed)
    × (r'.succeeded + r'.failed ≡ r.succeeded + r.failed + length ks)
    × (r'.enterprises ≡ r.enterprises ++ ks)

count_outcome_lem :
    (number : String) (a : Result Outcome) (r : ParseBatchReport)
    → Adds (number ∷ []) r (count_outcome number a r)
count_outcome_lem number (ok succeeded) r = (refl, omega arith, refl)
count_outcome_lem number (ok (failed reason)) r = (refl, omega arith, refl)
count_outcome_lem number (err e) r = (refl, omega arith, refl)

Adds-trans :
    (k : String) (ks : List String) (r t v : ParseBatchReport)
    → Adds (k ∷ []) r t
    → Adds ks t v
    → Adds (k ∷ ks) r v
Adds-trans k ks r t v f g = (
  g.0 ∙ f.0,
  omega (arith, f.1, g.1),
  g.2 ∙ ap (λ xs. xs ++ ks) f.2 ∙ append_assoc r.enterprises (k ∷ []) ks,
)

-- Every listed enterprise has left PARSING: it is structured or failed, or a link of a later one
-- has put it back on the scrape queue.
abbrev pub AreSettled : List String → Session → Type 0
AreSettled ks s = All (λ k. is_settled (state_of (find_state k s)) ≡ true) ks

abbrev pub Untouched : List String → Session → Session → Type 0
Untouched ks s s' =
    (k : String)
    → any (λ j. j == k) ks ≡ false
    → Stays (state_of (find_state k s)) (state_of (find_state k s'))

module _ ⦃u : Unicode⦄ (read_raw_bundle : String → Result (List ℕ × Dict)) (p : Parsers)
    (translate : Dict → Dict) (cfg : ExtractionConfig) where
  AreQueued-rest :
      (number : String) (s s' : Session) (ks : List String)
      → any (λ j. j == number) ks ≡ false
      → OthersStay number s s'
      → AreQueued parsing s ks
      → AreQueued parsing s' ks
  AreQueued-rest number s s' [] absent stay h = tt
  AreQueued-rest number s s' (k ∷ ks) absent stay ((row, found, here), once, ten, rest) =
      let other : (number == k) ≡ false = ground (arith, eq_iff number k, eq_iff k number) in
      let at : state_of (find_state k s) ≡ some parsing = ap state_of found ∙ ap some here in
      let at' : state_of (find_state k s') ≡ some parsing = (stay k other).0 (rw at refl) ∙ at in
      (
        row_of_state (find_state k s') parsing at',
        once,
        ten,
        AreQueued-rest number s s' ks (ground arith) stay rest,
      )

  abbrev IsBatch : List String → ParseBatchReport → Session → ParseBatchReport × Session → Type 0
  IsBatch ks report s out =
      IsSound out.1 × Adds ks report out.0 × AreSettled ks out.1 × Untouched ks s out.1

  parse_all_lem :
      (ks : List String) (report : ParseBatchReport) (s : Session)
      → IsSound s
      → AreQueued parsing s ks
      → IsBatch ks report s (parse_all read_raw_bundle p translate cfg ks report s)
  unfolding parse_all
  parse_all_lem [] report s sound h = (
    sound,
    (refl, omega arith, sym (append-nil report.enterprises)),
    tt,
    λ k absent. Stays-refl (state_of (find_state k s)),
  )
  parse_all_lem (k ∷ ks) report s sound ((row, found, here), once, ten, rest) =
      let out = parse_enterprise read_raw_bundle p translate cfg k s in
      let at : state_of (find_state k s) ≡ some parsing = ap state_of found ∙ ap some here in
      let (o, answer, sound', ended, others) =
        parse_enterprise_lem read_raw_bundle p translate cfg k s sound ten at in
      let counted = count_outcome_lem k out.0 report in
      let (sound'', adds, settled, untouched) =
        parse_all_lem ks (count_outcome k out.0 report) out.1 sound'
          (AreQueued-rest k s out.1 ks once others rest) in
      let final =
        parse_all read_raw_bundle p translate cfg ks (count_outcome k out.0 report) out.1 in
      let done : IsBatch (k ∷ ks) report s final = (
        sound'',
        Adds-trans k ks report (count_outcome k out.0 report) final.0 counted adds,
        ((untouched k once).1 (ap is_settled ended ∙ state_after-settled o), settled),
        λ j absent. Stays-trans _ _ _ (others j (ground arith)) (untouched j (ground arith)),
      ) in
      subst
        (λ t.
          IsBatch (k ∷ ks) report s
            (parse_all read_raw_bundle p translate cfg ks (count_outcome k out.0 report) t))
        (sym (close_ok s out o answer)) done

  -- What a batch leaves: no enterprise that it took is left in PARSING.
  abbrev pub IsParsedBatch : List String → Result ParseBatchReport × Session → Type 0
  IsParsedBatch numbers out =
      (report : ParseBatchReport) × (out.0 ≡ ok report)
      × IsSound out.1
      × (report.claimed ≡ length numbers)
      × (report.succeeded + report.failed ≡ length numbers)
      × (report.enterprises ≡ numbers)
      × AreSettled numbers out.1

  -- On a sound database a batch of parses returns a report: it takes the oldest `limit` enterprises of
  -- the parse queue, counts each of them once, as a success or as a failure, and leaves none of them
  -- in PARSING; the database stays sound.
  pub parse_batch_lem :
      (limit : ℕ) (s : Session)
      → IsSound s
      → IsParsedBatch
          (map state_key (take limit (queue queued_parse s)))
          (parse_batch read_raw_bundle p translate cfg limit s)
  unfolding parse_batch
  parse_batch_lem limit s sound =
      let numbers = map state_key (take limit (queue queued_parse s)) in
      let (answer, sound', claim) =
        claim_enterprises_for_parse_lem limit cfg.worker_id 300 s sound in
      let s' = (claim_enterprises_for_parse limit cfg.worker_id 300 s).1 in
      let start : ParseBatchReport = record {
        claimed = length numbers;
        succeeded = 0;
        failed = 0;
        enterprises = [];
      } in
      let (sound'', adds, settled, untouched) = parse_all_lem numbers start s' sound' (
        Claimed-AreQueued numbers queued_parse parsing cfg.worker_id _ s s' claim
          (take-queue-AreQueued queued_parse s limit sound)) in
      rw answer (
        (parse_all read_raw_bundle p translate cfg numbers start s').0,
        refl,
        sound'',
        adds.0,
        omega (arith, adds.1),
        adds.2,
        settled,
      )
