-- ===== src/Action.antt =====
-- Python's exceptions as values, and statements that change a state and may raise. What was
-- written before an exception stays written, so the state comes back beside it.
use airflow_kbo.Prelude.{◌≡◌, refl, ◌⊎◌, inl, inr, List, [], ◌∷◌}

-- The exceptions that the modelled code raises or catches.
pub data Exception : Type 0 where
  value_error state_transition_error enterprise_not_found integrity_error : Exception
  captcha_blocked file_not_found index_error attribute_error : Exception
  invalid_raw_content metadata_validation raw_bundle_not_found : Exception
  hdfs_error worker_error json_decode_error : Exception

pub data Result (A : Type 0) : Type 0 where
  ok : A → Result A
  err : Exception → Result A

pub Result-cases :
    {A : Type 0} (r : Result A) → ((a : A) × (r ≡ ok a)) ⊎ ((e : Exception) × (r ≡ err e))
Result-cases (ok a) = inl (a, refl)
Result-cases (err e) = inr (e, refl)

abbrev pub Action : Type 0 → Type 0 → Type 0
Action S A = S → Result A × S

module _ {S A : Type 0} where
  abbrev pub pure : A → Action S A
  pure a s = (ok a, s)

  abbrev pub raise : Exception → Action S A
  raise e s = (err e, s)

  abbrev pub lift : Result A → Action S A
  lift r s = (r, s)

module _ {S A B : Type 0} where
  abbrev pub and_then : Result A → (A → Action S B) → Action S B
  and_then (ok a) f = f a
  and_then (err e) f = raise e

  infixl 5 ◌>>=◌ ◌>>◌
  abbrev pub ◌>>=◌ : Action S A → (A → Action S B) → Action S B
  m >>= f = λ s. let (r, s') = m s in and_then r f s'

  abbrev pub ◌>>◌ : Action S A → Action S B → Action S B
  m >> n = m >>= λ _. n

  pub and_then-eq-ok :
      (r : Result A) (f : A → Action S B) (s : S) {b : B}
      → (and_then r f s).0 ≡ ok b
      → (a : A) × (r ≡ ok a) × ((f a s).0 ≡ ok b)
  and_then-eq-ok (ok a) f s e = (a, refl, e)
  and_then-eq-ok (err x) f s e = cc

-- for x in xs: body(x)
pub for_each : {S A : Type 0} → List A → (A → Action S (Unit {0})) → Action S (Unit {0})
for_each [] body = pure tt
for_each (x ∷ xs) body = body x >> for_each xs body

-- An action that keeps a property of the state, whatever it returns.
abbrev pub Keeps : {S A : Type 0} → (S → Type 0) → Action S A → Type 0
Keeps I m = (s : _) → I s → I (m s).1

module _ {S A B : Type 0} (I : S → Type 0) where
  pub Keeps-and_then :
      (r : Result A) (f : A → Action S B) (s : S)
      → ((a : A) → Keeps I (f a))
      → I s
      → I (and_then r f s).1
  Keeps-and_then (ok a) f s k i = k a s i
  Keeps-and_then (err e) f s k i = i

  -- It is enough that both parts keep it.
  pub Keeps-bind :
      (m : Action S A) (f : A → Action S B)
      → Keeps I m
      → ((a : A) → Keeps I (f a))
      → Keeps I (m >>= f)
  Keeps-bind m f km kf s i = Keeps-and_then (m s).0 f (m s).1 kf (km s i)

-- An action that keeps an invariant, and relates the state before to the state after.
abbrev pub Obeys : {S A : Type 0} → (S → Type 0) → (S → S → Type 0) → Action S A → Type 0
Obeys I R m = (s : _) → I s → I (m s).1 × R s (m s).1

module _ {S : Type 0} (I : S → Type 0) (R : S → S → Type 0)
    (compose : (s t v : S) → R s t → R t v → R s v) where
  pub Obeys-and_then :
      {A B : Type 0} (before s : S) (r : Result A) (f : A → Action S B)
      → ((a : A) → Obeys I R (f a))
      → I s
      → R before s
      → I (and_then r f s).1 × R before (and_then r f s).1
  Obeys-and_then before s (ok a) f k i h = ((k a s i).0, compose before s _ h (k a s i).1)
  Obeys-and_then before s (err e) f k i h = (i, h)

  pub Obeys-bind :
      {A B : Type 0} (m : Action S A) (f : A → Action S B)
      → Obeys I R m
      → ((a : A) → Obeys I R (f a))
      → Obeys I R (m >>= f)
  Obeys-bind m f km kf s i = Obeys-and_then s (m s).1 (m s).0 f kf (km s i).0 (km s i).1
