-- ===== src/Acquisition/Validate.antt =====
-- packages/acquisition/validate.py: what is done with a response.
pub mod Laws
use Prim.Native.Char.{code}
use airflow_kbo.Prelude.{
  ℕ, zero, suc, ◌≤◌, ◌<◌, ◌+◌, Char, String, ◌≡◌, refl, Bool, true, false, not, ◌&&◌, ◌||◌, Option,
  none, some, List, [], ◌∷◌, arith, ◌==◌, nat_eq, ltb, leb, if◌then◌else◌, length, take,
}
use airflow_kbo.Text.{Unicode, truthy, contains}
use airflow_kbo.Text.Regex.{Regex, seq, literal, space, spaces, not_gt, anything, search, star}
use airflow_kbo.Acquisition.Models.{
  ValidationAction, store, drop, retry, Reason, http_2xx, http_4xx, http_5xx, http_other,
  empty_body, html_error_marker, captcha_suspect, proxy_tunnel_failed, fetch_error,
  content_type_mismatch, http_404, FetchResult, Detail, no_detail, message, of_status, of_marker,
  ValidationDecision,
}

abbrev decide : ValidationAction → Reason → Detail → ValidationDecision
decide action reason detail = record { action = action; reason_code = reason; detail = detail }

-- Bytes: `lstrip`, `lower` and `startswith` of `bytes` go by ASCII.
abbrev is_blank : ℕ → Bool
is_blank c = (leb 9 c && leb c 13) || nat_eq c 32

abbrev lower_byte : ℕ → ℕ
lower_byte c = if leb b'A' c && leb c b'Z' then c + 32 else c

unfoldable pub lstrip_bytes : List ℕ → List ℕ
lstrip_bytes [] = []
lstrip_bytes (c ∷ cs) = let rest = lstrip_bytes cs in if is_blank c then rest else c ∷ cs

-- The bytes begin, whatever their case, with an ASCII text in lower case.
unfoldable pub starts_with_lower : String → List ℕ → Bool
starts_with_lower String.[] bytes = true
starts_with_lower (String.◌∷◌ c s) [] = false
starts_with_lower (String.◌∷◌ c s) (b ∷ bytes) =
    nat_eq (lower_byte b) (code c) && starts_with_lower s bytes

unfoldable pub looks_like_html : List ℕ → Bool
unfolding lstrip_bytes starts_with_lower
looks_like_html body =
    starts_with_lower "<!doctype html" (take 15 (lstrip_bytes body))
    || starts_with_lower "<html" (take 6 (lstrip_bytes body))

-- `result.headers.get("content-type") or ""`
abbrev pub or_empty : Option String → String
or_empty none = ""
or_empty (some s) = s

-- `a or b`
abbrev pub or_text : String → String → String
or_text a b = if truthy a then a else b

module _ ⦃u : Unicode⦄ where
  unfoldable pub captcha_markers : List Regex
  captcha_markers = literal "captcha" ∷ literal "recaptcha" ∷ literal "are you a robot" ∷ []

  unfoldable pub error_markers : List Regex
  error_markers =
      seq (literal "<title") (seq not_gt (seq (literal ">") (seq (star space) (literal "404"))))
      ∷ seq (literal "page") (seq spaces (seq (literal "not") (seq spaces (literal "found"))))
      ∷ seq (literal "aucune") (seq spaces (literal "donnée"))
      ∷ seq (literal "geen") (seq spaces (literal "onderneming"))
      ∷ seq (literal "onderneming")
          (seq spaces (seq (literal "niet") (seq spaces (literal "gevonden"))))
      ∷ seq (literal "numéro")
          (seq spaces (seq (literal "d'entreprise") (seq anything (literal "introuvable"))))
      ∷ []

  -- The place of the first pattern that is found.
  unfoldable pub first_match : List Regex → String → ℕ → Option ℕ
  first_match [] text n = none
  first_match (r ∷ rs) text n = if search r text then some n else first_match rs text (suc n)

  unfoldable pub is_proxy_error : FetchResult → String → Bool
  is_proxy_error r error =
      let low = u.lower error in
      not (r.proxy_or_ip == "direct" || r.proxy_or_ip == "none")
      && (contains "proxy" low
          || (contains "tunnel" low
              || (contains "connection refused" low || contains "timed out" low)))

  unfoldable pub is_html : String → List ℕ → Bool
  is_html content_type body = contains "html" content_type || looks_like_html body

  -- The tests on the text of an HTML page.
  unfoldable pub validate_text : String → ValidationDecision
  validate_text text = elim (first_match captcha_markers text 0) [
    | some n ↦ decide retry captcha_suspect (of_marker n)
    | none ↦ elim (first_match error_markers text 0) [
      | some n ↦ decide drop html_error_marker (of_marker n)
      | none ↦ decide store http_2xx no_detail
    ]
  ]

  -- The tests on a body that is not empty, in a response with a 2xx status.
  unfoldable pub validate_body : FetchResult → List ℕ → ValidationDecision
  validate_body r body =
      let content_type = u.lower (or_empty r.content_type) in
      let html = is_html content_type body in
      let resolved = u.lower (or_text r.final_url r.url) in
      if not html && (truthy content_type && not (contains "text" content_type))
      then decide drop content_type_mismatch (message content_type)
      else if contains "captchaform.html" resolved
      then decide retry captcha_suspect (message "url:captchaform.html")
      else if contains "captchaform" resolved
      then decide retry captcha_suspect (message "url:captchaform")
      else if contains "/captcha" resolved
      then decide retry captcha_suspect (message "url:/captcha")
      else if html
      then (if ltb (length body) 64
          then decide retry empty_body (message "html too small")
          else validate_text (u.decode body))
      else decide store http_2xx no_detail

  unfoldable pub validate_content : FetchResult → ValidationDecision
  validate_content r = elim r.body [
    | none ↦ decide retry empty_body (message "empty body")
    | some [] ↦ decide retry empty_body (message "empty body")
    | some (b ∷ body) ↦ validate_body r (b ∷ body)
  ]

  unfoldable pub validate_status : FetchResult → ℕ → ValidationDecision
  validate_status r status =
      if nat_eq status 404
      then decide drop http_404 (of_status status)
      else if leb 400 status && ltb status 500
      then (if nat_eq status 403 || nat_eq status 429
          then decide retry (if nat_eq status 403 then captcha_suspect else http_4xx)
              (of_status status)
          else decide drop http_4xx (of_status status))
      else if leb 500 status
      then decide retry http_5xx (of_status status)
      else if ltb status 200 || leb 300 status
      then decide drop http_other (of_status status)
      else validate_content r

  unfoldable pub validate_response : FetchResult → ValidationDecision
  validate_response r = elim r.http_status [
    | none ↦ decide retry fetch_error (message "missing http_status")
    | some status ↦ validate_status r status
  ]

  -- An empty `error` is as good as none.
  unfoldable pub validate_fetch : FetchResult → ValidationDecision
  validate_fetch r =
      let error = or_empty r.error in
      if truthy error
      then (if is_proxy_error r error
          then decide retry proxy_tunnel_failed (message error)
          else decide retry fetch_error (message error))
      else validate_response r
