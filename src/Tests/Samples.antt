-- ===== src/Tests/Samples.antt =====
-- A character table for ASCII, and a database of two enterprises.
use Prim.Native.Char.{code}
use airflow_kbo.Prelude.{
  ℕ, ◌*◌, String, ◌≡◌, refl, true, ◌&&◌, ◌||◌, none, some, [], leb, nat_eq, arith, ◌≢◌, ap, sym,
  ◌∙◌,
}
use airflow_kbo.Text.{Unicode, keep_chars}
use airflow_kbo.Action.{ok}
use airflow_kbo.Storage.Paths.{normalize_enterprise_number}
use airflow_kbo.Persistence.Enums.{csv, ProcessingState, queued_scrape, scraping, queued_parse}
use airflow_kbo.Persistence.Table.{count_key, has_key, find_key}
use airflow_kbo.Persistence.Session.{Session, StateRow, IsSound, is_known, find_state}
use airflow_kbo.Persistence.Repositories.Upsert.{after_upsert, upsert_enterprise_lem}

-- Letters are told apart by their case, and every page decodes to the same text.
instance abbrev pub ascii : Unicode
ascii = record {
  is_digit = λ c. leb b'0' (code c) && leb (code c) b'9';
  is_space = λ c. nat_eq (code c) 32 || (leb 9 (code c) && leb (code c) 13);
  same_ignoring_case = λ c d. nat_eq (code c) (code d);
  lower = λ s. s;
  upper = λ s. s;
  decode = λ bytes. "<html><title>Enterprise</title></html>";
}

abbrev pub empty_database : Session
empty_database = record {
  clock = λ n. 1_000_000 * n;
  ticks = 0;
  locked = [];
  enterprises = [];
  states = [];
  documents = [];
  snapshots = [];
  discoveries = [];
  history = [];
}

empty_database-IsSound : IsSound empty_database
unfolding count_key has_key
empty_database-IsSound = record {
  unique_enterprises = λ k. omega arith;
  unique_states = λ k. omega arith;
  tracked = λ k. refl;
  numbers = tt;
  documents_known = tt;
  snapshots_known = tt;
  discoveries_known = tt;
  history_known = tt;
}

abbrev pub waiting : String
waiting = "0403170701"

abbrev pub running : String
running = "0878065378"

abbrev pub one_waiting : Session
one_waiting = after_upsert waiting csv queued_scrape empty_database

abbrev pub database : Session
database = after_upsert running csv scraping one_waiting

pub waiting_number : normalize_enterprise_number waiting ≡ ok waiting
unfolding normalize_enterprise_number keep_chars
waiting_number = refl

pub running_number : normalize_enterprise_number running ≡ ok running
unfolding normalize_enterprise_number keep_chars
running_number = refl

pub dotted_number : normalize_enterprise_number "0878.065.378" ≡ ok running
unfolding normalize_enterprise_number keep_chars
dotted_number = refl

pub dotted_waiting : normalize_enterprise_number "0403.170.701" ≡ ok waiting
unfolding normalize_enterprise_number keep_chars
dotted_waiting = refl

pub one_waiting-IsSound : IsSound one_waiting
one_waiting-IsSound =
    (upsert_enterprise_lem waiting waiting csv queued_scrape empty_database empty_database-IsSound
      waiting_number).4

pub database-IsSound : IsSound database
database-IsSound =
    (upsert_enterprise_lem running running csv scraping one_waiting one_waiting-IsSound
      running_number).4

-- Both enterprises wait to be scraped, or to be parsed.
abbrev pub two_queued : Session
two_queued = after_upsert running csv queued_scrape one_waiting

pub two_queued-IsSound : IsSound two_queued
two_queued-IsSound =
    (upsert_enterprise_lem running running csv queued_scrape one_waiting one_waiting-IsSound
      running_number).4

abbrev one_parsed : Session
one_parsed = after_upsert waiting csv queued_parse empty_database

abbrev pub two_scraped : Session
two_scraped = after_upsert running csv queued_parse one_parsed

pub two_scraped-IsSound : IsSound two_scraped
two_scraped-IsSound =
    (upsert_enterprise_lem running running csv queued_parse one_parsed
      ((upsert_enterprise_lem waiting waiting csv queued_parse empty_database empty_database-IsSound
        waiting_number).4)
      running_number).4

abbrev pub row_of : String → ProcessingState → ℕ → StateRow
row_of number state now = record {
  enterprise_number = number;
  state = state;
  state_since = now;
  lock_owner = none;
  lock_until = none;
  updated_at = now;
  version = 1;
}

pub waiting_row : find_state waiting database ≡ some (row_of waiting queued_scrape 0)
unfolding find_key has_key
waiting_row = refl

pub running_row : find_state running database ≡ some (row_of running scraping 1_000_000)
unfolding find_key has_key
running_row = refl

pub running_known : is_known running database ≡ true
unfolding find_key has_key
running_known = refl

-- The row is not of the given state.
pub waiting_not_scraping :
    (row : StateRow) → find_state waiting database ≡ some row → row.state ≢ scraping
waiting_not_scraping row e f =
    let both : some (row_of waiting queued_scrape 0) ≡ some row = sym waiting_row ∙ e in
    let same : row_of waiting queued_scrape 0 ≡ row = cc in
    absurd (ground (arith, ap (λ (r : StateRow). r.state) same, f))
