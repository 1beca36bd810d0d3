-- ===== src/Acquisition/Policy.antt =====
-- packages/acquisition/scrape_policy.py, and the escalation test of tor_strategy.py.
use airflow_kbo.Prelude.{
  ℕ, ◌≤◌, String, ◌≡◌, refl, ◌⊎◌, inl, inr, Bool-cases, nat_eq, leb, ◌≢◌, ◌<◌, eq_iff, Bool, true,
  false, arith, ◌==◌, if◌then◌else◌, min, max,
}
use airflow_kbo.Acquisition.Models.{Reason, captcha_suspect, http_4xx}

-- The four sets of sources have the one member "statutes".
unfoldable pub skip_inter_request_delay : String → Bool
skip_inter_request_delay source = source == "statutes"

unfoldable pub skip_if_already_stored : String → Bool
skip_if_already_stored source = source == "statutes"

unfoldable pub use_tor_escalation_on_error : String → Bool
use_tor_escalation_on_error source = false

unfoldable pub graceful_stop_on_block : String → Bool
graceful_stop_on_block source = source == "statutes"

-- Python's int, `negsuc n` the number -(n + 1).
pub data ℤ : Type 0 where
  pos negsuc : ℕ → ℤ

-- max(1, min(requested, 32)): a negative request is below both.
abbrev pub capped : ℤ → ℕ
capped (pos requested) = max 1 (min requested 32)
capped (negsuc n) = 1

unfoldable pub effective_parallel_requests_per_site : String → ℤ → ℕ
effective_parallel_requests_per_site source requested =
    if source == "statutes" then 1 else capped requested

abbrev pub is_kbo_rate_or_captcha : Reason → Bool
is_kbo_rate_or_captcha captcha_suspect = true
is_kbo_rate_or_captcha http_4xx = true
is_kbo_rate_or_captcha _ = false

abbrev pub is_tor_escalation_reason : Reason → Bool
is_tor_escalation_reason reason = is_kbo_rate_or_captcha reason

-- What a source other than the statutes gets for a request.
abbrev pub IsOtherGranted : ℤ → ℕ → Type 0
IsOtherGranted (pos requested) granted =
    ((requested ≡ 0) × (granted ≡ 1))
    ⊎ (((1 ≤ requested) × (requested ≤ 32) × (granted ≡ requested))
        ⊎ ((32 < requested) × (granted ≡ 32)))
IsOtherGranted (negsuc n) granted = granted ≡ 1

-- What a site gets for a request.
abbrev pub IsGranted : String → ℤ → ℕ → Type 0
IsGranted source requested granted =
    ((source ≡ "statutes") × (granted ≡ 1))
    ⊎ ((source ≢ "statutes") × IsOtherGranted requested granted)

other_granted : (requested : ℤ) → IsOtherGranted requested (capped requested)
other_granted (pos requested) = elim (Bool-cases (nat_eq requested 0)) [
  | inl e ↦ inl (ground arith, ground arith)
  | inr some_slot ↦ elim (Bool-cases (leb requested 32)) [
    | inl small ↦ inr (inl (ground arith, ground arith, ground arith))
    | inr large ↦ inr (inr (ground arith, ground arith))
  ]
]
other_granted (negsuc n) = refl

capped_idem : (requested : ℤ) → capped (pos (capped requested)) ≡ capped requested
capped_idem (pos requested) = ground arith
capped_idem (negsuc n) = refl

-- The statutes get one slot; any other source as many as it asks for, but one when it asks for none
-- or for a negative number, and 32 when it asks for more. Asking for what was granted grants the
-- same.
pub effective_parallel_bounds :
    (source : String) (requested : ℤ)
    → let granted = effective_parallel_requests_per_site source requested in
      IsGranted source requested granted
      × (effective_parallel_requests_per_site source (pos granted) ≡ granted)
unfolding effective_parallel_requests_per_site
effective_parallel_bounds source requested = elim (Bool-cases (source == "statutes")) [
  | inl e ↦ rw e (inl ((eq_iff source "statutes").0 e, refl), refl)
  | inr e ↦ rw e (
    inr ((λ same. absurd (cc (e, (eq_iff source "statutes").1 same))), other_granted requested),
    capped_idem requested,
  )
]
