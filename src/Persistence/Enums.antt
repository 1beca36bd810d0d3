-- ===== src/Persistence/Enums.antt =====
-- packages/persistence/enums.py.
use airflow_kbo.Prelude.{ℕ, zero, suc, ◌≡◌, refl, ◌↔◌, sym, ap, ◌∙◌, Bool, true, nat_eq, nat_eq_iff}

pub data SeedSource : Type 0 where
  csv discovered : SeedSource

pub data ProcessingState : Type 0 where
  new queued_scrape scraping raw_stored queued_parse : ProcessingState
  parsing structured failed_scrape failed_parse failed_validate : ProcessingState

pub data RawDocumentStatus : Type 0 where
  stored failed skipped : RawDocumentStatus

-- The place of a state in the enumeration: equality of states is equality of places.
abbrev pub place : ProcessingState → ℕ
place new = 0
place queued_scrape = 1
place scraping = 2
place raw_stored = 3
place queued_parse = 4
place parsing = 5
place structured = 6
place failed_scrape = 7
place failed_parse = 8
place failed_validate = 9

abbrev pub state_eq : ProcessingState → ProcessingState → Bool
state_eq a b = nat_eq (place a) (place b)

at_place : ℕ → ProcessingState
at_place zero = new
at_place (suc zero) = queued_scrape
at_place (suc (suc zero)) = scraping
at_place (suc (suc (suc zero))) = raw_stored
at_place (suc (suc (suc (suc zero)))) = queued_parse
at_place (suc (suc (suc (suc (suc zero))))) = parsing
at_place (suc (suc (suc (suc (suc (suc zero)))))) = structured
at_place (suc (suc (suc (suc (suc (suc (suc zero))))))) = failed_scrape
at_place (suc (suc (suc (suc (suc (suc (suc (suc zero)))))))) = failed_parse
at_place (suc (suc (suc (suc (suc (suc (suc (suc (suc n))))))))) = failed_validate

at_place-place : (s : ProcessingState) → at_place (place s) ≡ s
unfolding at_place
at_place-place new = refl
at_place-place queued_scrape = refl
at_place-place scraping = refl
at_place-place raw_stored = refl
at_place-place queued_parse = refl
at_place-place parsing = refl
at_place-place structured = refl
at_place-place failed_scrape = refl
at_place-place failed_parse = refl
at_place-place failed_validate = refl

pub state_eq_iff : (a b : ProcessingState) → (state_eq a b ≡ true) ↔ (a ≡ b)
state_eq_iff a b = (
  λ h.
      sym (at_place-place a)
      ∙ ap at_place ((nat_eq_iff (place a) (place b)).0 h)
      ∙ at_place-place b,
  λ e. (nat_eq_iff (place a) (place b)).1 (ap place e),
)
