-- ===== src/Persistence/Table/Selection.antt =====
-- Rows selected from a table with unique keys: by a test, and the first so many.
use airflow_kbo.Prelude.{
  ℕ, zero, suc, ◌≤◌, String, ◌≡◌, Bool, true, some, List, [], ◌∷◌, arith, eq_iff, keep, take, All,
  Bool-cases, inl, inr,
}
use airflow_kbo.Persistence.Table.{find_key, count_key, IsUnique, has_key_of_count, find_key-some}

module _ {A : Type 0} (key : A → String) where
  find_key-tail :
      (x : A) (rows : List A) (k : String) (r : A)
      → count_key key k (x ∷ rows) ≤ 1
      → find_key key k rows ≡ some r
      → find_key key k (x ∷ rows) ≡ some r
  unfolding find_key count_key
  find_key-tail x rows k r u h =
      ground (arith, has_key_of_count key k rows, find_key-some key k rows r)

  found_in_part :
      (full rows : List A)
      → IsUnique key rows
      → ((k : String) (r : A) → find_key key k rows ≡ some r → find_key key k full ≡ some r)
      → All (λ r. find_key key (key r) full ≡ some r) rows
  found_in_part full [] u f = tt
  found_in_part full (x ∷ rows) u f = (
    f (key x) x (unfold find_key in ground (arith, eq_iff (key x) (key x))),
    found_in_part full rows (λ k. unfold count_key in ground (arith, u k))
        (λ k r h. f k r (find_key-tail x rows k r (u k) h)),
  )

  -- Where keys are unique, the row that is found by a row's key is that row.
  pub All-found :
      (rows : List A) → IsUnique key rows → All (λ r. find_key key (key r) rows ≡ some r) rows
  All-found rows unique = found_in_part rows rows unique (λ k r h. h)

  pub count_key-keep_le :
      (p : A → Bool) (k : String) (rows : List A)
      → count_key key k (keep p rows) ≤ count_key key k rows
  unfolding count_key
  count_key-keep_le p k [] = omega arith
  count_key-keep_le p k (x ∷ rows) = ground (arith, count_key-keep_le p k rows)

  pub count_key-take_le :
      (n : ℕ) (k : String) (rows : List A) → count_key key k (take n rows) ≤ count_key key k rows
  unfolding count_key
  count_key-take_le zero k rows = omega arith
  count_key-take_le (suc n) k [] = omega arith
  count_key-take_le (suc n) k (x ∷ rows) = ground (arith, count_key-take_le n k rows)

module _ {A : Type 0} (P : A → Type 0) where
  pub All-keep :
      (p : A → Bool) (rows : List A) → All P rows → All (λ r. P r × (p r ≡ true)) (keep p rows)
  All-keep p [] h = tt
  All-keep p (x ∷ rows) h = elim (Bool-cases (p x)) [
    | inl e ↦ rw e ((h.0, e), All-keep p rows h.1)
    | inr e ↦ rw e (All-keep p rows h.1)
  ]

  pub All-take : (n : ℕ) (rows : List A) → All P rows → All P (take n rows)
  All-take zero rows h = tt
  All-take (suc n) [] h = tt
  All-take (suc n) (x ∷ rows) h = (h.0, All-take n rows h.1)
