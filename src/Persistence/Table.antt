-- ===== src/Persistence/Table.antt =====
-- Tables with a text for primary key: lookup, insertion at the end, UPDATE … WHERE, row counts.
pub mod Selection
use airflow_kbo.Prelude.{
  ℕ, suc, ◌≤◌, String, ◌≡◌, refl, Bool, true, false, not, ◌&&◌, ◌||◌, Option, none, some, List, [],
  ◌∷◌, ◌++◌, map, arith, ◌==◌, eq_iff, if◌then◌else◌, count_if, find, length, Bool-cases, inl, inr,
  ap, All, subst, sym,
}

module _ {A : Type 0} (key : A → String) where
  -- session.get(Model, k)
  unfoldable pub find_key : String → List A → Option A
  find_key k [] = none
  find_key k (r ∷ rows) = if key r == k then some r else find_key k rows

  unfoldable pub has_key : String → List A → Bool
  has_key k [] = false
  has_key k (r ∷ rows) = key r == k || has_key k rows

  unfoldable pub count_key : String → List A → ℕ
  count_key k [] = 0
  count_key k (r ∷ rows) = let rest = count_key k rows in if key r == k then suc rest else rest

  -- Each key stands in one row at most.
  abbrev pub IsUnique : List A → Type 0
  IsUnique rows = (k : String) → count_key k rows ≤ 1

  pub has_key-append :
      (k : String) (rows : List A) (r : A)
      → has_key k (rows ++ r ∷ []) ≡ (has_key k rows || key r == k)
  unfolding has_key
  has_key-append k [] r = ground arith
  has_key-append k (x ∷ rows) r = ground (arith, has_key-append k rows r)

  pub count_key-append :
      (k : String) (rows : List A) (r : A)
      → count_key k (rows ++ r ∷ [])
        ≡ (if key r == k then suc (count_key k rows) else count_key k rows)
  unfolding count_key
  count_key-append k [] r = refl
  count_key-append k (x ∷ rows) r = ground (arith, count_key-append k rows r)

  pub count_key_of_absent :
      (k : String) (rows : List A) → has_key k rows ≡ false → count_key k rows ≡ 0
  unfolding has_key count_key
  count_key_of_absent k [] h = refl
  count_key_of_absent k (x ∷ rows) h = ground (arith, count_key_of_absent k rows)

  pub has_key_of_count :
      (k : String) (rows : List A) → count_key k rows ≡ 0 → has_key k rows ≡ false
  unfolding has_key count_key
  has_key_of_count k [] h = refl
  has_key_of_count k (x ∷ rows) h = ground (arith, has_key_of_count k rows)

  pub find_key-none : (k : String) (rows : List A) → find_key k rows ≡ none → has_key k rows ≡ false
  unfolding find_key has_key
  find_key-none k [] h = refl
  find_key-none k (x ∷ rows) h = ground (arith, find_key-none k rows)

  pub find_key-some :
      (k : String) (rows : List A) (r : A)
      → find_key k rows ≡ some r
      → (key r ≡ k) × (has_key k rows ≡ true)
  unfolding find_key has_key
  find_key-some k [] r h = absurd (ground arith)
  find_key-some k (x ∷ rows) r h = ground (arith, find_key-some k rows r, eq_iff (key x) k)

  pub find_key_of_has_key :
      (k : String) (rows : List A) → has_key k rows ≡ true → (r : A) × (find_key k rows ≡ some r)
  unfolding find_key has_key
  find_key_of_has_key k [] h = absurd (false≢true' h)
    where
      false≢true' : false ≡ true → ⊥
      false≢true' e = cc
  find_key_of_has_key k (x ∷ rows) h = elim (Bool-cases (key x == k)) [
    | inl e ↦ (x, rw e)
    | inr e ↦ let (r, f) = find_key_of_has_key k rows (ground arith) in (r, rw e f)
  ]

  pub find_key-append :
      (k : String) (rows : List A) (r : A)
      → find_key k (rows ++ r ∷ [])
        ≡ (if has_key k rows then find_key k rows else if key r == k then some r else none)
  unfolding find_key has_key
  find_key-append k [] r = refl
  find_key-append k (x ∷ rows) r = ground (arith, find_key-append k rows r)

  pub insert-IsUnique :
      (rows : List A) (r : A)
      → IsUnique rows
      → has_key (key r) rows ≡ false
      → IsUnique (rows ++ r ∷ [])
  insert-IsUnique rows r h absent k =
      ground (arith, count_key-append k rows r, h k, eq_iff (key r) k, count_key_of_absent k rows)

  -- UPDATE … SET f WHERE p
  abbrev pub update_where : (A → Bool) → (A → A) → List A → List A
  update_where p f rows = map (λ r. if p r then f r else r) rows

  module _ (p : A → Bool) (f : A → A) (same : (r : A) → key (f r) ≡ key r) where
    pub find_key-update :
        (k : String) (rows : List A)
        → find_key k (update_where p f rows)
          ≡ elim (find_key k rows) [ none ↦ none | some r ↦ some (if p r then f r else r) ]
    unfolding find_key
    find_key-update k [] = refl
    find_key-update k (x ∷ rows) = ground (arith, find_key-update k rows, same x)

    pub has_key-update :
        (k : String) (rows : List A) → has_key k (update_where p f rows) ≡ has_key k rows
    unfolding has_key
    has_key-update k [] = refl
    has_key-update k (x ∷ rows) = ground (arith, has_key-update k rows, same x)

    pub count_key-update :
        (k : String) (rows : List A) → count_key k (update_where p f rows) ≡ count_key k rows
    unfolding count_key
    count_key-update k [] = refl
    count_key-update k (x ∷ rows) = ground (arith, count_key-update k rows, same x)

  -- A test that implies the key counts nothing where the key is absent.
  pub count_if_of_absent :
      (k : String) (p : A → Bool) (rows : List A)
      → count_key k rows ≡ 0
      → count_if (λ r. key r == k && p r) rows ≡ 0
  unfolding count_key
  count_if_of_absent k p [] h = refl
  count_if_of_absent k p (x ∷ rows) h = ground (arith, count_if_of_absent k p rows)

  -- An UPDATE by key and a test that the found row passes changes exactly that row.
  pub count_if_of_found :
      (k : String) (p : A → Bool) (rows : List A) (r : A)
      → count_key k rows ≤ 1
      → find_key k rows ≡ some r
      → count_if (λ x. key x == k && p x) rows ≡ (if p r then 1 else 0)
  unfolding find_key count_key
  count_if_of_found k p [] r u h = absurd (ground arith)
  count_if_of_found k p (x ∷ rows) r u h =
      ground (arith, count_if_of_found k p rows r, count_if_of_absent k p rows)

  -- An UPDATE whose row count is 0 changes nothing.
  pub update_of_count_zero :
      (p : A → Bool) (f : A → A) (rows : List A)
      → count_if p rows ≡ 0
      → update_where p f rows ≡ rows
  update_of_count_zero p f [] h = refl
  update_of_count_zero p f (x ∷ rows) h = ground (arith, update_of_count_zero p f rows)

  -- A property of the key alone survives an UPDATE that keeps the keys.
  pub All-update :
      (P : String → Type 0) (p : A → Bool) (f : A → A)
      → ((r : A) → key (f r) ≡ key r)
      → (rows : List A) → All (λ r. P (key r)) rows
      → All (λ r. P (key r)) (update_where p f rows)
  All-update P p f same [] h = tt
  All-update P p f same (x ∷ rows) h = (
    elim (Bool-cases (p x)) [ inl e ↦ rw e (subst P (sym (same x)) h.0) | inr e ↦ rw e h.0 ],
    All-update P p f same rows h.1,
  )
