-- ===== src/Persistence/Repositories/Oldest.antt =====
-- packages/persistence/repositories.py: whom the claims take, in words of the table of states alone.
use airflow_kbo.Prelude.{
  ℕ, zero, suc, ◌≤◌, String, ◌≡◌, refl, Bool, true, false, ◌&&◌, not, some, List, [], ◌∷◌, map,
  arith, ◌==◌, eq_iff, keep, take, any, All, All-map, All-both, All-each, Bool-cases, inl, inr, leb,
  length, ap, length-take_le, subst, if◌then◌else◌, ◌⊎◌,
}
use airflow_kbo.Text.{Unicode}
use airflow_kbo.Persistence.Enums.{ProcessingState, state_eq, state_eq_iff}
use airflow_kbo.Persistence.Table.{find_key}
use airflow_kbo.Persistence.Table.Selection.{All-take, All-keep}
use airflow_kbo.Persistence.Session.{Session, StateRow, find_state, state_key, IsSound}
use airflow_kbo.Persistence.Repositories.{insert_by_since, order_by_since, is_locked, queue}
use airflow_kbo.Persistence.Repositories.Queue.{
  IsOrdered, IsWaiting, IsEntry, All-entries, queue-IsOrdered,
}

module _ (P : StateRow → Type 0) where
  All-uninsert :
      (r : StateRow) (rows : List StateRow) → All P (insert_by_since r rows) → P r × All P rows
  unfolding insert_by_since
  All-uninsert r [] h = h
  All-uninsert r (x ∷ rows) h =
      let cases : Bool → Type 0 =
        λ b. All P (if b then r ∷ x ∷ rows else x ∷ insert_by_since r rows) in
      elim (Bool-cases (leb r.state_since x.state_since)) [
        | inl e ↦ let here : cases true = subst cases e h in here
        | inr e ↦
            let there : cases false = subst cases e h in
            let (first, rest) = All-uninsert r rows there.1 in (first, (there.0, rest))
      ]

  All-unorder : (rows : List StateRow) → All P (order_by_since rows) → All P rows
  unfolding order_by_since
  All-unorder [] h = tt
  All-unorder (r ∷ rows) h =
      let (first, rest) = All-uninsert r (order_by_since rows) h in (first, All-unorder rows rest)

  All-unkeep :
      (p : StateRow → Bool) (rows : List StateRow)
      → All P (keep p rows)
      → All (λ r. p r ≡ true → P r) rows
  All-unkeep p [] h = tt
  All-unkeep p (x ∷ rows) h =
      let cases : Bool → Type 0 = λ b. All P (if b then x ∷ keep p rows else keep p rows) in
      elim (Bool-cases (p x)) [
        | inl e ↦
            let kept : cases true = subst cases e h in
            ((λ passed. kept.0), All-unkeep p rows kept.1)
        | inr e ↦
            let left : cases false = subst cases e h in
            ((λ passed. absurd (ground arith)), All-unkeep p rows left)
      ]

  at_found :
      (k : String) (rows : List StateRow) (r : StateRow)
      → All P rows
      → find_key state_key k rows ≡ some r
      → P r
  unfolding find_key
  at_found k [] r h e = absurd (ground arith)
  at_found k (x ∷ rows) r h e = elim (Bool-cases (x.enterprise_number == k)) [
    | inl hit ↦ let same : x ≡ r = ground arith in subst P same h.0
    | inr miss ↦ at_found k rows r h.1 (ground arith)
  ]

-- A row is among those taken, or as many as wanted were taken, each at least as old.
abbrev HasTurn : ℕ → List StateRow → StateRow → Type 0
HasTurn n taken x =
    (any (λ j. j == x.enterprise_number) (map state_key taken) ≡ true)
    ⊎ ((n ≤ length taken) × All (λ (r : StateRow). r.state_since ≤ x.state_since) taken)

later_turn :
    (n : ℕ) (r : StateRow) (taken : List StateRow) (x : StateRow)
    → (r.state_since ≤ x.state_since) × HasTurn n taken x
    → HasTurn (suc n) (r ∷ taken) x
later_turn n r taken x (older, inl listed) = inl (ground arith)
later_turn n r taken x (older, inr (enough, all_older)) =
    inr (omega (arith, enough), (older, all_older))

take-HasTurn : (n : ℕ) (rows : List StateRow) → IsOrdered rows → All (HasTurn n (take n rows)) rows
take-HasTurn zero rows h = All-each _ (λ x. inr (omega arith, tt)) rows
take-HasTurn (suc n) [] h = tt
take-HasTurn (suc n) (r ∷ rows) h = (
  inl (ground (arith, eq_iff r.enterprise_number r.enterprise_number)),
  All-map _ _ (later_turn n r (take n rows)) rows (All-both _ _ rows h.0 (take-HasTurn n rows h.1)),
)

module _ ⦃u : Unicode⦄ (state : ProcessingState) (s : Session) where
  -- The number of a row in the state that no other transaction holds.
  abbrev pub IsFree : String → Type 0
  IsFree k = (row : StateRow) × (find_state k s ≡ some row) × IsWaiting state s row

  -- The number of a row that is as old as `row`, or older.
  abbrev pub IsOlder : StateRow → String → Type 0
  IsOlder row k =
      (older : StateRow) × (find_state k s ≡ some older) × (older.state_since ≤ row.state_since)

  -- Only free rows are taken, `limit` of them at most, and no free row is passed over for a younger
  -- one, nor before the limit is reached.
  pub record AreOldest (limit : ℕ) (numbers : List String) : Type 0 where
    pub free : All IsFree numbers
    pub bounded : length numbers ≤ limit
    pub fair :
        (k : String) (row : StateRow)
        → find_state k s ≡ some row
        → IsWaiting state s row
        → (any (λ j. j == row.enterprise_number) numbers ≡ true)
          ⊎ ((limit ≤ length numbers) × All (IsOlder row) numbers)

  All-keys :
      (P : StateRow → Type 0) (Q : String → Type 0)
      → ((r : StateRow) → P r → Q r.enterprise_number)
      → (rows : List StateRow) → All P rows
      → All Q (map state_key rows)
  All-keys P Q f [] h = tt
  All-keys P Q f (r ∷ rows) h = (f r h.0, All-keys P Q f rows h.1)

  length-keys : (rows : List StateRow) → length (map state_key rows) ≡ length rows
  length-keys [] = refl
  length-keys (r ∷ rows) = ap suc (length-keys rows)

  -- What holds of the whole queue holds of every waiting row.
  queue-complete :
      (P : StateRow → Type 0)
      → All P (queue state s)
      → (k : String) (row : StateRow) → find_state k s ≡ some row
      → IsWaiting state s row
      → P row
  unfolding queue
  queue-complete P h k row found waiting =
      at_found (λ r. (state_eq r.state state && not (is_locked s r)) ≡ true → P r) k s.states row
        (All-unkeep P (λ r. state_eq r.state state && not (is_locked s r)) s.states
          (All-unorder P _ h))
        found (ground (arith, (state_eq_iff row.state state).1 waiting.0, waiting.1))

  pub take-queue-AreOldest :
      (limit : ℕ) → IsSound s → AreOldest limit (map state_key (take limit (queue state s)))
  take-queue-AreOldest limit sound =
      let entries = All-take (IsEntry state s) limit (queue state s) (All-entries state s sound) in
      record {
        free = All-keys (IsEntry state s) IsFree (λ r e. (r, e.0, e.2)) _ entries;
        bounded =
            omega (
              arith,
              length-keys (take limit (queue state s)),
              length-take_le limit (queue state s),
            );
        fair = λ k row found waiting.
            elim (queue-complete (HasTurn limit (take limit (queue state s)))
              (take-HasTurn limit (queue state s) (queue-IsOrdered state s)) k row found waiting) [
                | inl listed ↦ inl listed
                | inr (enough, older) ↦ inr (
                  omega (arith, enough, length-keys (take limit (queue state s))),
                  All-keys (λ r. IsEntry state s r × (r.state_since ≤ row.state_since))
                      (IsOlder row) (λ r e. (r, e.0.0, e.1)) (take limit (queue state s))
                      (All-both _ _ (take limit (queue state s)) entries older),
                )
              ];
      }

  -- With a choice of numbers every free one of them is taken, and no other.
  pub record AreChosen (wanted numbers : List String) : Type 0 where
    pub free : All (λ k. IsFree k × (any (λ j. j == k) wanted ≡ true)) numbers
    pub complete :
        (k : String) (row : StateRow)
        → find_state k s ≡ some row
        → IsWaiting state s row
        → any (λ j. j == row.enterprise_number) wanted ≡ true
        → any (λ j. j == row.enterprise_number) numbers ≡ true

  kept_listed :
      (p : StateRow → Bool) (rows : List StateRow)
      → All
          (λ (x : StateRow).
            p x ≡ true → any (λ j. j == x.enterprise_number) (map state_key (keep p rows)) ≡ true)
          rows
  kept_listed p [] = tt
  kept_listed p (r ∷ rows) = (
    (λ passed. ground (arith, eq_iff r.enterprise_number r.enterprise_number)),
    All-map _ _ (λ x h passed. ground (arith, h passed)) rows (kept_listed p rows),
  )

  pub keep-queue-AreChosen :
      (wanted : List String)
      → IsSound s
      → AreChosen wanted (
          map state_key
            (keep (λ (r : StateRow). any (λ k. k == r.enterprise_number) wanted) (queue state s)))
  keep-queue-AreChosen wanted sound =
      let p : StateRow → Bool = λ r. any (λ k. k == r.enterprise_number) wanted in
      record {
        free =
            All-keys _ _ (λ r e. ((r, e.0.0, e.0.2), e.1)) _
              (All-keep (IsEntry state s) p (queue state s) (All-entries state s sound));
        complete = λ k row found waiting listed.
            queue-complete _ (kept_listed p (queue state s)) k row found waiting listed;
      }
