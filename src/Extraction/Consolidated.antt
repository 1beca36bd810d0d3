-- ===== src/Extraction/Consolidated.antt =====
-- packages/extraction/consolidate.py: which document a registry is built from, and what it holds.
use airflow_kbo.Prelude.{
  String, ◌≡◌, refl, Bool, true, false, ◌&&◌, none, some, List, [], ◌∷◌, ◌==◌, eq_iff, any, keep,
  find, if◌then◌else◌, arith, Bool-cases, Option-cases, inl, inr, subst,
}
use airflow_kbo.Payload.{Value, text, Dict, get, put, get-put, is_some, ParsedDocument}
use airflow_kbo.Extraction.{
  identity_keys, is_kbo, is_primary, is_not_profile, pick_kbo_document, copy_keys, detail_of,
}

-- A key is read from the fields where they have it, and from the detail otherwise.
pub copy_keys_lem :
    (keys : List String) (fields detail : Dict) (key : String)
    → get key (copy_keys keys fields detail) ≡ (
        if any (λ k. k == key) keys && is_some (get key fields)
        then get key fields
        else get key detail)
unfolding copy_keys
copy_keys_lem [] fields detail key = refl
copy_keys_lem (k ∷ keys) fields detail key = ground (
  arith,
  copy_keys_lem keys fields (if is_some (get k fields) then put k (get k fields) detail else detail)
      key,
  get-put k key (get k fields) detail,
  eq_iff k key,
)

-- What is found in a selection passes both tests.
find-keep :
    (p q : ParsedDocument → Bool) (ds : List ParsedDocument) (d : ParsedDocument)
    → find p (keep q ds) ≡ some d
    → (p d ≡ true) × (q d ≡ true)
find-keep p q [] d e = absurd cc
find-keep p q (x ∷ ds) d e = elim (Bool-cases (q x)) [
  | inr out ↦
      find-keep p q ds d
        (subst (λ b. find p (if b then x ∷ keep q ds else keep q ds) ≡ some d) out e)
  | inl selected ↦
      let e1 : find p (x ∷ keep q ds) ≡ some d =
        subst (λ b. find p (if b then x ∷ keep q ds else keep q ds) ≡ some d) selected e in
      elim (Bool-cases (p x)) [
        | inl hit ↦
            let here : some x ≡ some d =
              subst (λ b. (if b then some x else find p (keep q ds)) ≡ some d) hit e1 in
            let same : x ≡ d = cc in subst (λ y. (p y ≡ true) × (q y ≡ true)) same (hit, selected)
        | inr miss ↦
            find-keep p q ds d
              (subst (λ b. (if b then some x else find p (keep q ds)) ≡ some d) miss e1)
      ]
]

-- Nothing is found in a selection only when no item passes both tests.
find-keep-none :
    (p q : ParsedDocument → Bool) (ds : List ParsedDocument)
    → find p (keep q ds) ≡ none
    → any (λ x. q x && p x) ds ≡ false
find-keep-none p q [] e = refl
find-keep-none p q (x ∷ ds) e = elim (Bool-cases (q x)) [
  | inr out ↦ rw out (
      find-keep-none p q ds
        (subst (λ b. find p (if b then x ∷ keep q ds else keep q ds) ≡ none) out e))
  | inl selected ↦
      let e1 : find p (x ∷ keep q ds) ≡ none =
        subst (λ b. find p (if b then x ∷ keep q ds else keep q ds) ≡ none) selected e in
      elim (Bool-cases (p x)) [
        | inl hit ↦
            let here : some x ≡ none =
              subst (λ b. (if b then some x else find p (keep q ds)) ≡ none) hit e1 in
            absurd cc
        | inr miss ↦ rw selected (
            rw miss (
              find-keep-none p q ds
                (subst (λ b. (if b then some x else find p (keep q ds)) ≡ none) miss e1)))
      ]
]

any_and_true :
    (p : ParsedDocument → Bool) (ds : List ParsedDocument)
    → any (λ x. p x && true) ds ≡ false
    → any p ds ≡ false
any_and_true p [] e = refl
any_and_true p (x ∷ ds) e = ground (arith, any_and_true p ds)

-- The registry is built from a KBO document, and from an enterprise detail whenever there is one;
-- no document is picked only when there is no KBO document.
pub pick_kbo_document_lem :
    (documents : List ParsedDocument)
    → ((pick_kbo_document documents ≡ none) → any is_kbo documents ≡ false)
      × ((d : ParsedDocument)
          → pick_kbo_document documents ≡ some d
          → (is_kbo d ≡ true)
            × (any (λ x. is_kbo x && is_primary x) documents ≡ true → is_primary d ≡ true))
unfolding pick_kbo_document
pick_kbo_document_lem documents = elim (Option-cases (find is_primary (keep is_kbo documents))) [
  | inr (x, e) ↦
      let (primary, kbo) = find-keep is_primary is_kbo documents x e in
      rw e (
        (λ h. absurd cc),
        λ d h.
            let same : x ≡ d = cc in
            subst
              (λ y.
                (is_kbo y ≡ true)
                × (any (λ z. is_kbo z && is_primary z) documents ≡ true → is_primary y ≡ true))
              same (kbo, λ there. primary),
      )
  | inl e ↦
      let no_detail = find-keep-none is_primary is_kbo documents e in
      elim (Option-cases (find is_not_profile (keep is_kbo documents))) [
        | inr (x, f) ↦ rw e (
            rw f (
              (λ h. absurd cc),
              λ d h.
                  let same : x ≡ d = cc in
                  subst
                    (λ y.
                      (is_kbo y ≡ true)
                      × (any (λ z. is_kbo z && is_primary z) documents ≡ true
                          → is_primary y ≡ true))
                    same ((find-keep is_not_profile is_kbo documents x f).1, λ there. absurd cc),
            ))
        | inl f ↦ rw e (
            rw f (
              (λ h. any_and_true is_kbo documents (find-keep-none (λ d. true) is_kbo documents h)),
              λ d h. ((find-keep (λ x. true) is_kbo documents d h).1, λ there. absurd cc),
            ))
      ]
]

module _ (show : Value → String) (translate : Dict → Dict) where
  -- The part of the detail that is copied from the picked document holds, under each identity key,
  -- the translated field of that document where it has one, and the number of the enterprise also
  -- without a field; this part holds nothing under a key that is no identity key. The entries
  -- `moniteur`, `other_sources` and `registry_complete` are added beside it.
  pub detail_of_lem :
      (number : String) (documents : List ParsedDocument) (d : ParsedDocument) (key : String)
      → pick_kbo_document documents ≡ some d
      → let fields = translate d.fields in
        get key (detail_of show translate number documents).keys ≡ (
          if any (λ k. k == key) identity_keys && is_some (get key fields)
          then get key fields
          else get key (("enterprise_number", text number) ∷ []))
  unfolding detail_of
  detail_of_lem number documents d key e = rw e (
      copy_keys_lem identity_keys (translate d.fields) (("enterprise_number", text number) ∷ [])
        key)
