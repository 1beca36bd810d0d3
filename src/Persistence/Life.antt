-- ===== src/Persistence/Life.antt =====
-- packages/persistence/enums.py and the callers of `transition_state`: the life of an enterprise as
-- a graph of its processing states, from `none` (not registered) on.
pub mod Steps
pub mod Writes
use airflow_kbo.Prelude.{String, ◌≡◌, ◌≢◌, refl, Option, none, some, Bool, true, false}
use airflow_kbo.Persistence.Enums.{
  ProcessingState, new, queued_scrape, scraping, raw_stored, queued_parse, parsing, structured,
  failed_scrape, failed_parse, failed_validate,
}
use airflow_kbo.Persistence.Session.{Session, StateRow, find_state}

infix 40 ◌⟶◌ ◌⟶*◌
-- One step: who takes it is named by the constructor.
pub data ◌⟶◌ : Option ProcessingState → Option ProcessingState → Type 0 where
  discover : none ⟶ some new
  ingest : none ⟶ some queued_scrape
  enqueue : some new ⟶ some queued_scrape
  retry_scrape : some failed_scrape ⟶ some queued_scrape
  retry_parse : some failed_parse ⟶ some queued_scrape
  rescrape : some structured ⟶ some queued_scrape
  claim_scrape : some queued_scrape ⟶ some scraping
  scraped : some scraping ⟶ some queued_parse
  not_scraped : some scraping ⟶ some failed_scrape
  claim_parse : some queued_parse ⟶ some parsing
  parsed : some parsing ⟶ some structured
  not_parsed : some parsing ⟶ some failed_parse

pub data ◌⟶*◌ : Option ProcessingState → Option ProcessingState → Type 0 where
  here : {p : Option ProcessingState} → p ⟶* p
  follow : {p q r : Option ProcessingState} → p ⟶ q → q ⟶* r → p ⟶* r

pub ⟶*-trans : {p q r : Option ProcessingState} → p ⟶* q → q ⟶* r → p ⟶* r
⟶*-trans here h = h
⟶*-trans (follow e g) h = follow e (⟶*-trans g h)

abbrev pub state_of : Option StateRow → Option ProcessingState
state_of none = none
state_of (some row) = some row.state

-- Every enterprise goes from its state in the one session to its state in the other by steps.
unfoldable pub Evolves : Session → Session → Type 0
Evolves s s' = (k : String) → state_of (find_state k s) ⟶* state_of (find_state k s')

pub Evolves-refl : (s : Session) → Evolves s s
unfolding Evolves
Evolves-refl s k = here

pub Evolves-trans : (s t v : Session) → Evolves s t → Evolves t v → Evolves s v
unfolding Evolves
Evolves-trans s t v f g k = ⟶*-trans (f k) (g k)

-- The states that the program gives to an enterprise.
abbrev pub is_used : Option ProcessingState → Bool
is_used (some raw_stored) = false
is_used (some failed_validate) = false
is_used _ = true

step-used : {p q : Option ProcessingState} → p ⟶ q → is_used q ≡ true
step-used discover = refl
step-used ingest = refl
step-used enqueue = refl
step-used retry_scrape = refl
step-used retry_parse = refl
step-used rescrape = refl
step-used claim_scrape = refl
step-used scraped = refl
step-used not_scraped = refl
step-used claim_parse = refl
step-used parsed = refl
step-used not_parsed = refl

-- RAW_STORED and FAILED_VALIDATE are never reached.
pub ⟶*-used : {p q : Option ProcessingState} → p ⟶* q → is_used p ≡ true → is_used q ≡ true
⟶*-used here h = h
⟶*-used (follow e g) h = ⟶*-used g (step-used e)

from_parsing : some parsing ⟶* some structured
from_parsing = follow parsed here

from_queue : some queued_scrape ⟶* some structured
from_queue = follow claim_scrape (follow scraped (follow claim_parse from_parsing))

-- From every state in use there is a way to STRUCTURED: no enterprise is stuck for good.
pub ⟶*-structured : (p : Option ProcessingState) → is_used p ≡ true → p ⟶* some structured
⟶*-structured none h = follow ingest from_queue
⟶*-structured (some new) h = follow enqueue from_queue
⟶*-structured (some queued_scrape) h = from_queue
⟶*-structured (some scraping) h = follow scraped (follow claim_parse from_parsing)
⟶*-structured (some raw_stored) h = absurd cc
⟶*-structured (some queued_parse) h = follow claim_parse from_parsing
⟶*-structured (some parsing) h = from_parsing
⟶*-structured (some structured) h = here
⟶*-structured (some failed_scrape) h = follow retry_scrape from_queue
⟶*-structured (some failed_parse) h = follow retry_parse from_queue
⟶*-structured (some failed_validate) h = absurd cc
