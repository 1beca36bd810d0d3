-- ===== src/Tests/Requests.antt =====
-- Two proxies whose weights are natural numbers, a network that is down, and the theorems on sources
-- and requests.
use airflow_kbo.Prelude.{
  ℕ, ◌+◌, ◌*◌, String, ◌≡◌, ◌⊎◌, true, false, none, some, List, [], ◌∷◌, ◌++◌, map, ltb, leb, All,
}
use airflow_kbo.Action.{ok, err, value_error}
use airflow_kbo.Acquisition.Models.{FetchJob}
use airflow_kbo.Acquisition.Sources.{Setting, Adapter, source, build_urls, get_adapters}
use airflow_kbo.Acquisition.Sources.Chosen.{HasJobs, IsUnknown, get_adapters_lem}
use airflow_kbo.Acquisition.Proxies.{Numbers, ProxyPool}
use airflow_kbo.Acquisition.Fetch.{Transport, os_failed, fetch}
use airflow_kbo.Acquisition.Fetch.Blamed.{IsFetched, fetch_lem}
use airflow_kbo.Tests.Samples.{ascii, running, dotted_number}

-- Every query is written the same.
abbrev no_settings : Setting
no_settings = record { environ = λ name. ""; urlencode = λ params. "q" }

abbrev names : List String
names = "statutes" ∷ "kbo" ∷ []

get_adapters_example :
    ((found : List Adapter) × (get_adapters no_settings (some names) ≡ ok found)
      × (map source found ≡ names)
      × All (λ a. HasJobs no_settings a running (build_urls no_settings a "0878.065.378")) found)
    ⊎ ((get_adapters no_settings (some names) ≡ err value_error)
        × ((before : List String) × (name : String) × (after : List String) × (names
              ≡ before ++ name ∷ after)
            × IsUnknown name))
get_adapters_example = get_adapters_lem no_settings names "0878.065.378" dotted_number

instance abbrev naturals : Numbers ℕ
naturals = record {
  decimal = λ m k. m;
  plus = λ a b. a + b;
  times = λ a b. a * b;
  less = ltb;
  at_most = leb;
  uniform = λ n a b. b;
  str = λ n. "8080";
  int = λ s. none;
  is_word = λ c. true;
}

-- The state is the number of requests.
instance abbrev network : Transport ℕ
network = record { get = λ address proxy n. (os_failed "unreachable", n + 1) }

abbrev proxies : ProxyPool ℕ
proxies = record {
  entries =
      record { host = "10.0.0.1"; port = 8080; weight = 10; healthy = false }
      ∷ record { host = "10.0.0.2"; port = 8080; weight = 10; healthy = true }
      ∷ [];
  allow_direct = false;
  draws = 0;
}

abbrev profile_job : FetchJob
profile_job = record {
  url = "https://kbopub.economie.fgov.be/kbopub/";
  source = "kbo";
  doc_type = "profile";
  enterprise_number = running;
}

fetch_example :
    IsFetched {F = ℕ} {S = ℕ} profile_job 1 proxies 0 (fetch profile_job proxies 1 none none 0)
fetch_example = fetch_lem profile_job 1 proxies 0
