-- ===== src/Acquisition/Fetch.antt =====
-- packages/acquisition/fetch.py: one request, by a proxy of the pool or by a lane that is forced. The
-- transport is packages/acquisition/http_transport.py, with what it raises as values.
pub mod Blamed
use airflow_kbo.Prelude.{
  ℕ, String, Bool, true, false, not, ◌&&◌, Option, none, some, List, get_elem?, if◌then◌else◌,
}
use airflow_kbo.Text.{truthy}
use airflow_kbo.Acquisition.Models.{FetchJob, FetchResult}
use airflow_kbo.Acquisition.Proxies.{
  Numbers, ProxyEntry, ProxyPool, label, url, pick, record_success, record_failure,
}

pub record Response : Type 0 where
  pub body : List ℕ
  pub status : ℕ
  pub content_type : Option String
  pub final_url : String

-- An answer, or the message of a ProxyTunnelError or of an OSError.
pub data Reply : Type 0 where
  answered : Response → Reply
  tunnel_failed : String → Reply
  os_failed : String → Reply

-- transport.get(url, proxy_url=…) on a state of the network.
pub record Transport (S : Type 0) : Type 0 where
  pub get : String → Option String → S → Reply × S

-- The proxy that a request goes through, its name in the result, and its entry in the pool.
pub record Route : Type 0 where
  pub proxy_url : Option String
  pub proxy_label : String
  pub entry : Option ℕ

-- a or b, for a text that may be None.
abbrev pub text_or : Option String → String → String
text_or none default = default
text_or (some s) default = if truthy s then s else default

abbrev pub given : Option String → Bool
given none = false
given (some s) = truthy s

-- The result without an answer.
abbrev pub no_answer : FetchJob → ℕ → String → String → FetchResult
no_answer job n proxy message = record {
  body = none;
  http_status = none;
  content_type = none;
  proxy_or_ip = proxy;
  attempt_count = n;
  url = job.url;
  final_url = "";
  error = some message;
}

abbrev pub with_answer : FetchJob → ℕ → String → Response → FetchResult
with_answer job n proxy response = record {
  body = some response.body;
  http_status = some response.status;
  content_type = response.content_type;
  proxy_or_ip = proxy;
  attempt_count = n;
  url = job.url;
  final_url = if truthy response.final_url then response.final_url else job.url;
  error = none;
}

abbrev pub forced_route : Option String → Option String → Route
forced_route force_url force_label = record {
  proxy_url = force_url;
  proxy_label = text_or force_label (if given force_url then "tor" else "direct");
  entry = none;
}

abbrev pub direct_route : Route
direct_route = record { proxy_url = none; proxy_label = "direct"; entry = none }

abbrev pub has_entry : Option ℕ → Bool
has_entry none = false
has_entry (some i) = true

-- `lane` says that a label is forced.
abbrev pub lacks_proxy : Bool → Bool → Route → Bool
lacks_proxy lane allow_direct route = not (has_entry route.entry) && not allow_direct && not lane

module _ {F : Type 0} ⦃nums : Numbers F⦄ where
  abbrev pub entry_route : ℕ → Option (ProxyEntry F) → Route
  entry_route i none = direct_route
  entry_route i (some e) = record {
    proxy_url = some (url e);
    proxy_label = label e;
    entry = some i;
  }

  abbrev pub picked_route : List (ProxyEntry F) → Option ℕ → Route
  picked_route es none = direct_route
  picked_route es (some i) = entry_route i (get_elem? es i)

module _ {F S : Type 0} ⦃nums : Numbers F⦄ ⦃net : Transport S⦄ where
  abbrev pub settle_reply :
      FetchJob → ℕ → Route → ProxyPool F → Reply × S → FetchResult × ProxyPool F × S
  settle_reply job n route pool (answered response, s) =
      (with_answer job n route.proxy_label response, record_success route.entry pool, s)
  settle_reply job n route pool (tunnel_failed message, s) =
      (no_answer job n route.proxy_label message, record_failure route.entry "tunnel" pool, s)
  settle_reply job n route pool (os_failed message, s) =
      (no_answer job n route.proxy_label message, record_failure route.entry "connection" pool, s)

  -- Nothing is sent when there is no proxy to send it by.
  abbrev pub request : FetchJob → ℕ → Bool → Route → ProxyPool F → S → FetchResult × ProxyPool F × S
  request job n true route pool s = (no_answer job n "none" "no_proxy_available", pool, s)
  request job n false route pool s =
      settle_reply job n route pool (net.get job.url route.proxy_url s)

  -- `n` is the number of the attempt.
  unfoldable pub fetch :
      FetchJob → ProxyPool F → ℕ → Option String → Option String → S → FetchResult × ProxyPool F × S
  unfolding pick record_success record_failure
  fetch job pool n none none s =
      let (picked, pool') = pick pool in
      let route = picked_route pool.entries picked in
      request job n (lacks_proxy false pool'.allow_direct route) route pool' s
  fetch job pool n (some force_url) none s =
      let route = forced_route (some force_url) none in
      request job n (lacks_proxy false pool.allow_direct route) route pool s
  fetch job pool n force_url (some force_label) s =
      let route = forced_route force_url (some force_label) in
      request job n (lacks_proxy true pool.allow_direct route) route pool s
