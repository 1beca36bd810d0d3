-- ===== src/Acquisition/Validate/Laws.antt =====
-- packages/acquisition/validate.py: what a STORE and a captcha answer say of the response.
use airflow_kbo.Prelude.{
  ℕ, ◌≤◌, ◌<◌, ◌≡◌, refl, Bool, true, false, inl, inr, Option, none, some, List, [], ◌∷◌, arith,
  ltb, length, Bool-cases, Option-cases, String,
}
use airflow_kbo.Text.{Unicode, truthy}
use airflow_kbo.Acquisition.Models.{
  ValidationAction, store, drop, retry, Reason, http_2xx, http_4xx, http_5xx, http_other,
  empty_body, html_error_marker, captcha_suspect, proxy_tunnel_failed, fetch_error,
  content_type_mismatch, http_404, FetchResult,
}
use airflow_kbo.Acquisition.Validate.{
  validate_fetch, validate_response, validate_status, validate_content, validate_body,
  validate_text, is_html, first_match, captcha_markers, error_markers, or_empty,
}

module _ ⦃u : Unicode⦄ where
  -- A page that passes for HTML is not tiny and has none of the markers.
  pub IsCleanPage : FetchResult → List ℕ → Type 0
  IsCleanPage r body =
      is_html (u.lower (or_empty r.content_type)) body ≡ true
      → (64 ≤ length body)
        × (first_match captcha_markers (u.decode body) 0 ≡ none)
        × (first_match error_markers (u.decode body) 0 ≡ none)

  validate_text_lem :
      (text : String)
      → (validate_text text).action ≡ store
      → (first_match captcha_markers text 0 ≡ none)
        × (first_match error_markers text 0 ≡ none)
        × ((validate_text text).reason_code ≡ http_2xx)
  unfolding validate_text
  validate_text_lem text h = elim (Option-cases (first_match captcha_markers text 0)) [
    | inr (n, e) ↦ absurd (ground arith)
    | inl e ↦ elim (Option-cases (first_match error_markers text 0)) [
      | inr (n, f) ↦ absurd (ground arith)
      | inl f ↦ ground arith
    ]
  ]

  validate_body_lem :
      (r : FetchResult) (body : List ℕ)
      → (validate_body r body).action ≡ store
      → IsCleanPage r body × ((validate_body r body).reason_code ≡ http_2xx)
  unfolding validate_body IsCleanPage
  validate_body_lem r body h =
      elim (Bool-cases (is_html (u.lower (or_empty r.content_type)) body)) [
        | inl html ↦ elim (Bool-cases (ltb (length body) 64)) [
          | inl small ↦ absurd (ground arith)
          | inr large ↦ ground (arith, validate_text_lem (u.decode body))
        ]
        | inr other ↦ ground arith
      ]

  -- What a response must be to be stored.
  pub IsAcceptable : FetchResult → ℕ → List ℕ → Type 0
  IsAcceptable r status body =
      (truthy (or_empty r.error) ≡ false)
      × (r.http_status ≡ some status)
      × (200 ≤ status)
      × (status < 300)
      × (r.body ≡ some body)
      × (1 ≤ length body)
      × IsCleanPage r body

  validate_content_lem :
      (r : FetchResult) (content : Option (List ℕ))
      → r.body ≡ content
      → (validate_content r).action ≡ store
      → (body : List ℕ) × (r.body ≡ some body)
        × (1 ≤ length body)
        × IsCleanPage r body
        × ((validate_content r).reason_code ≡ http_2xx)
  unfolding validate_content
  validate_content_lem r none e h = absurd (ground arith)
  validate_content_lem r (some []) e h = absurd (ground arith)
  validate_content_lem r (some (b ∷ body)) e h =
      let (clean, reason) = validate_body_lem r (b ∷ body) (ground arith) in
      (b ∷ body, e, omega arith, clean, ground arith)

  -- Only a response without an error, with a 2xx status, and with a body that is not empty is
  -- stored; one that passes for HTML has 64 bytes at least, and none of the captcha and error
  -- markers.
  pub validate_fetch_lem :
      (r : FetchResult)
      → (validate_fetch r).action ≡ store
      → (status : ℕ) × (body : List ℕ) × IsAcceptable r status body
  unfolding validate_fetch validate_response validate_status IsAcceptable
  validate_fetch_lem r h = elim (Option-cases r.http_status) [
    | inl e ↦ absurd (ground arith)
    | inr (status, e) ↦
        let (body, f, n, clean, reason) = validate_content_lem r r.body refl (ground arith) in
        (status, body, (ground arith, e, ground arith, ground arith, f, n, clean))
  ]

  -- How a reason and an action go together; a 429 is tried again, the other 4xx are dropped.
  abbrev pub agrees : Reason → ValidationAction → Bool
  agrees http_2xx store = true
  agrees http_4xx drop = true
  agrees http_4xx retry = true
  agrees http_404 drop = true
  agrees http_other drop = true
  agrees html_error_marker drop = true
  agrees content_type_mismatch drop = true
  agrees http_5xx retry = true
  agrees empty_body retry = true
  agrees captcha_suspect retry = true
  agrees proxy_tunnel_failed retry = true
  agrees fetch_error retry = true
  agrees _ _ = false

  validate_text-agrees :
      (text : String) → agrees (validate_text text).reason_code (validate_text text).action ≡ true
  unfolding validate_text
  validate_text-agrees text = elim (Option-cases (first_match captcha_markers text 0)) [
    | inr (n, e) ↦ ground arith
    | inl e ↦ elim (Option-cases (first_match error_markers text 0)) [
      | inr (n, f) ↦ ground arith
      | inl f ↦ ground arith
    ]
  ]

  validate_body-agrees :
      (r : FetchResult) (body : List ℕ)
      → agrees (validate_body r body).reason_code (validate_body r body).action ≡ true
  unfolding validate_body
  validate_body-agrees r body = ground (arith, validate_text-agrees (u.decode body))

  validate_status-agrees :
      (r : FetchResult) (status : ℕ)
      → agrees (validate_status r status).reason_code (validate_status r status).action ≡ true
  unfolding validate_status validate_content
  validate_status-agrees r status = elim (Option-cases r.body) [
    | inl e ↦ ground arith
    | inr (body, e) ↦ ground (arith, validate_body-agrees r body)
  ]

  -- Every reason comes with its action: a captcha or a failed connection is always tried again, a
  -- 404 or an error page is always dropped, and what is stored is a 2xx.
  pub validate_fetch-agrees :
      (r : FetchResult) → agrees (validate_fetch r).reason_code (validate_fetch r).action ≡ true
  unfolding validate_fetch validate_response
  validate_fetch-agrees r = elim (Option-cases r.http_status) [
    | inl e ↦ ground arith
    | inr (status, e) ↦ ground (arith, validate_status-agrees r status)
  ]
