-- ===== src/Acquisition/Models.antt =====
-- packages/acquisition/models.py.
use airflow_kbo.Prelude.{ℕ, String, Bool, true, false, Option, List}

pub data ValidationAction : Type 0 where
  store drop retry : ValidationAction

-- The reason codes of models.py, then those that the worker adds.
pub data Reason : Type 0 where
  http_2xx http_4xx http_5xx http_other empty_body html_error_marker : Reason
  captcha_suspect proxy_tunnel_failed fetch_error content_type_mismatch http_404 : Reason
  unknown no_jobs already_stored tor_lanes_exhausted worker_failed : Reason

pub record FetchJob : Type 0 where
  pub url : String
  pub source : String
  pub doc_type : String
  pub enterprise_number : String

-- `body` and `error` are `none` where the source has None; `content_type` is the header of that
-- name, the only one that is read.
pub record FetchResult : Type 0 where
  pub body : Option (List ℕ)
  pub http_status : Option ℕ
  pub content_type : Option String
  pub proxy_or_ip : String
  pub attempt_count : ℕ
  pub url : String
  pub final_url : String
  pub error : Option String

-- The free text of a decision: a message, `status=…`, or the marker that was found.
pub data Detail : Type 0 where
  no_detail : Detail
  message : String → Detail
  of_status : ℕ → Detail
  of_marker : ℕ → Detail

pub record ValidationDecision : Type 0 where
  pub action : ValidationAction
  pub reason_code : Reason
  pub detail : Detail

abbrev pub is_captcha : Reason → Bool
is_captcha captcha_suspect = true
is_captcha _ = false

abbrev pub is_already_stored : Reason → Bool
is_already_stored already_stored = true
is_already_stored _ = false

abbrev pub is_lanes_exhausted : Reason → Bool
is_lanes_exhausted tor_lanes_exhausted = true
is_lanes_exhausted _ = false
