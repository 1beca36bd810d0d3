-- ===== src/Lifecycle/Labels.antt =====
-- packages/lifecycle/status.py: which labels give which status.
use airflow_kbo.Prelude.{
  String, ◌≡◌, refl, true, ◌||◌, Option, none, some, arith, Bool-cases, inl, inr, ◌⊎◌,
}
use airflow_kbo.Text.{Unicode, truthy, contains, contains-tail}
use airflow_kbo.Lifecycle.{status_of_text, map_status_label}

-- Every text with "inactief" or "inactif" has "actief" or "actif".
inactive_lem :
    (low : String)
    → (contains "inactief" low || contains "inactif" low) ≡ true
    → (contains "actief" low || contains "actif" low) ≡ true
inactive_lem low h = ground (
  arith,
  contains-tail "i" "nactief" low,
  contains-tail "n" "actief" low,
  contains-tail "i" "nactif" low,
  contains-tail "n" "actif" low,
)

-- The statuses that are given at all.
pub IsGiven : String → Type 0
IsGiven s = (s ≡ "ACTIVE") ⊎ ((s ≡ "STRUCK_OFF") ⊎ ((s ≡ "MERGED") ⊎ (s ≡ "UNKNOWN")))

status_of_text_lem : (low : String) → IsGiven (status_of_text low)
unfolding status_of_text IsGiven
status_of_text_lem low = ground (arith, inactive_lem low)

status_of_text-active :
    (low : String)
    → (contains "inactief" low || contains "inactif" low) ≡ true
    → status_of_text low ≡ "ACTIVE"
unfolding status_of_text
status_of_text-active low h = ground (arith, inactive_lem low)

-- Every label is mapped to ACTIVE, STRUCK_OFF, MERGED or UNKNOWN, so none to INACTIVE: the labels
-- that hold "inactief" or "inactif" are mapped to ACTIVE.
pub map_status_label_lem :
    ⦃u : Unicode⦄
    → (label : Option String)
    → IsGiven (map_status_label label)
      × ((text : String)
          → label ≡ some text
          → truthy text ≡ true
          → (contains "inactief" (u.lower text) || contains "inactif" (u.lower text)) ≡ true
          → map_status_label label ≡ "ACTIVE")
unfolding map_status_label IsGiven
map_status_label_lem none = (inr (inr (inr refl)), λ text e t h. absurd cc)
map_status_label_lem ⦃u⦄ (some label) = elim (Bool-cases (truthy label)) [
  | inl full ↦ rw full (
    status_of_text_lem (u.lower label),
    λ text e t h. let same : label ≡ text = cc in rw same (status_of_text-active (u.lower text) h),
  )
  | inr empty ↦ rw empty (
    inr (inr (inr refl)),
    λ text e t h. let same : label ≡ text = cc in absurd (ground (arith, same)),
  )
]
