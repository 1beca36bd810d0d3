-- ===== src/Tests/Sites.antt =====
-- A page, a block, a site that answers with them, and a run on it.
use airflow_kbo.Prelude.{ℕ, true, none, some, List, [], ◌∷◌}
use airflow_kbo.Action.{pure}
use airflow_kbo.Acquisition.Models.{FetchResult}
use airflow_kbo.Acquisition.Tor.{build_kbo_lanes, start_coordinator}
use airflow_kbo.Acquisition.Worker.{Outside, Run, SourceAdapter}

-- A page of an enterprise, as bytes.
abbrev pub page_bytes : List ℕ
page_bytes =
    60 ∷ 104 ∷ 116 ∷ 109 ∷ 108 ∷ 62 ∷ 60 ∷ 116 ∷ 105 ∷ 116 ∷ 108 ∷ 101 ∷ 62 ∷ 69 ∷ 110 ∷ 116 ∷ 101
    ∷ 114 ∷ 112 ∷ 114 ∷ 105 ∷ 115 ∷ 101 ∷ 32 ∷ 48 ∷ 52 ∷ 48 ∷ 51 ∷ 49 ∷ 55 ∷ 48 ∷ 55 ∷ 48 ∷ 49 ∷ 60
    ∷ 47 ∷ 116 ∷ 105 ∷ 116 ∷ 108 ∷ 101 ∷ 62 ∷ 60 ∷ 98 ∷ 111 ∷ 100 ∷ 121 ∷ 62 ∷ 65 ∷ 99 ∷ 116 ∷ 105
    ∷ 118 ∷ 101 ∷ 32 ∷ 99 ∷ 111 ∷ 109 ∷ 112 ∷ 97 ∷ 110 ∷ 121 ∷ 60 ∷ 47 ∷ 98 ∷ 111 ∷ 100 ∷ 121 ∷ 62
    ∷ 60 ∷ 47 ∷ 104 ∷ 116 ∷ 109 ∷ 108 ∷ 62 ∷ []

abbrev pub page : FetchResult
page = record {
  body = some page_bytes;
  http_status = some 200;
  content_type = some "text/html";
  proxy_or_ip = "direct";
  attempt_count = 1;
  url = "https://kbopub.example/403170701";
  final_url = "https://kbopub.example/403170701";
  error = none;
}

-- A block by the site.
abbrev pub blocked : FetchResult
blocked = record page { body = none; http_status = some 403 }

-- A site that blocks the direct lane and answers on the others.
abbrev pub site : Outside (Unit {0})
site = record {
  fetch = λ job attempt lane. elim lane [
    | none ↦ pure blocked
    | some l ↦ elim l.proxy_url [ none ↦ pure blocked | some url ↦ pure page ]
  ];
  store_raw_bundle = λ job r attempt. pure tt;
}

abbrev pub adapter : SourceAdapter
adapter = record {
  source = "kbo";
  build_urls = λ number.
      record {
        url = "https://kbopub.example";
        source = "kbo";
        doc_type = "profile";
        enterprise_number = number;
      }
      ∷ [];
}

abbrev pub started : Run (Unit {0})
started = record {
  world = tt;
  coordinator = start_coordinator (build_kbo_lanes true ("socks5://tor1:9050" ∷ [])) true;
  events = [];
}
