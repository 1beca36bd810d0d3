-- ===== src/Tests/Status.antt =====
-- The theorems on business statuses, at sample labels and the sample database.
use airflow_kbo.Prelude.{String, ◌≡◌, true, ◌||◌, some}
use airflow_kbo.Text.{truthy, contains}
use airflow_kbo.Lifecycle.{map_status_label}
use airflow_kbo.Lifecycle.Labels.{IsGiven, map_status_label_lem}
use airflow_kbo.Tests.Samples.{ascii}

map_status_label_example :
    IsGiven (map_status_label (some "inactief"))
    × ((label : String)
        → some "inactief" ≡ some label
        → truthy label ≡ true
        → (contains "inactief" (ascii.lower label) || contains "inactif" (ascii.lower label)) ≡ true
        → map_status_label (some "inactief") ≡ "ACTIVE")
map_status_label_example = map_status_label_lem (some "inactief")
