-- ===== src/Acquisition/Proxies/Available.antt =====
-- packages/acquisition/proxy_pool.py: which proxies can be chosen.
use airflow_kbo.Prelude.{
  ℕ, suc, ◌+◌, ◌≡◌, refl, subst, true, false, Option, none, some, List, [], ◌∷◌, arith, get_elem?,
  All, All-map, Bool-cases, inl, inr,
}
use airflow_kbo.Acquisition.Proxies.{
  Numbers, ProxyEntry, ProxyPool, available, candidates, reach, pick, pick_from,
}

module _ {F : Type 0} ⦃nums : Numbers F⦄ where
  -- The entry at a position can be chosen.
  abbrev pub IsAvailableAt : List (ProxyEntry F) → ℕ → Type 0
  IsAvailableAt es i = (e : ProxyEntry F) × (get_elem? es i ≡ some e) × (available e ≡ true)

  -- `es` begins at position `k` of the list.
  abbrev IsCandidate : ℕ → List (ProxyEntry F) → ℕ × F → Type 0
  IsCandidate k es c = (j : ℕ) × (c.0 ≡ k + j) × IsAvailableAt es j

  step :
      (k : ℕ) (e : ProxyEntry F) (es : List (ProxyEntry F)) (c : ℕ × F)
      → IsCandidate (suc k) es c
      → IsCandidate k (e ∷ es) c
  step k e es c (j, at, found) = (suc j, omega (arith, at), found)

  candidates-AreAvailable :
      (k : ℕ) (es : List (ProxyEntry F)) → All (IsCandidate k es) (candidates k es)
  unfolding candidates
  candidates-AreAvailable k [] = tt
  candidates-AreAvailable k (e ∷ es) = elim (Bool-cases (available e)) [
    | inl hit ↦ rw hit (
      (0, omega arith, (e, refl, hit)),
      All-map _ _ (step k e es) _ (candidates-AreAvailable (suc k) es),
    )
    | inr miss ↦ rw miss (All-map _ _ (step k e es) _ (candidates-AreAvailable (suc k) es))
  ]

  reach-Has :
      (P : ℕ → Type 0) (r upto : F) (last : ℕ) (cs : List (ℕ × F))
      → P last
      → All (λ c. P c.0) cs
      → P (reach r upto last cs)
  unfolding reach
  reach-Has P r upto last [] l a = l
  reach-Has P r upto last (c ∷ cs) l a = elim (Bool-cases (nums.at_most r (nums.plus upto c.1))) [
    | inl e ↦ rw e a.0
    | inr e ↦ rw e (reach-Has P r (nums.plus upto c.1) c.0 cs a.0 a.1)
  ]

  no_candidates :
      (k : ℕ) (es : List (ProxyEntry F)) → candidates k es ≡ [] → All (λ e. available e ≡ false) es
  unfolding candidates
  no_candidates k [] h = tt
  no_candidates k (e ∷ es) h = elim (Bool-cases (available e)) [
    | inl hit ↦ absurd (ground arith)
    | inr miss ↦ (miss, no_candidates (suc k) es (ground arith))
  ]

  abbrev pub HasPicked : List (ProxyEntry F) → Option ℕ → Type 0
  HasPicked es none = All (λ e. available e ≡ false) es
  HasPicked es (some i) = IsAvailableAt es i

  pick_from-Has :
      (es : List (ProxyEntry F)) (n : ℕ) (cs : List (ℕ × F))
      → candidates 0 es ≡ cs
      → All (λ c. IsAvailableAt es c.0) cs
      → HasPicked es (pick_from n cs)
  pick_from-Has es n [] e a = no_candidates 0 es e
  pick_from-Has es n (c ∷ cs) e a = reach-Has (IsAvailableAt es) _ _ c.0 (c ∷ cs) a.0 a

  at_zero : (es : List (ProxyEntry F)) (c : ℕ × F) → IsCandidate 0 es c → IsAvailableAt es c.0
  at_zero es c (j, at, found) = subst (IsAvailableAt es) (omega (arith, at)) found

  pub pick_lem : (pool : ProxyPool F) → HasPicked pool.entries (pick pool).0
  unfolding pick
  pick_lem pool =
      pick_from-Has pool.entries pool.draws _ refl
        (All-map _ _ (at_zero pool.entries) _ (candidates-AreAvailable 0 pool.entries))
