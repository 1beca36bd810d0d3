-- ===== src/Persistence/Repositories/Queue.antt =====
-- The queue that the claims of packages/persistence/repositories.py select from.
use airflow_kbo.Prelude.{
  ℕ, ◌≤◌, String, ◌≡◌, refl, Bool, false, ◌&&◌, not, some, List, [], ◌∷◌, map, arith, ◌==◌, eq_iff,
  keep, take, any, All, All-map, All-both, Bool-cases, inl, inr, leb,
}
use airflow_kbo.Text.{Unicode}
use airflow_kbo.Storage.Paths.{IsNumber}
use airflow_kbo.Persistence.Enums.{ProcessingState, state_eq, state_eq_iff}
use airflow_kbo.Persistence.Table.{count_key, IsUnique}
use airflow_kbo.Persistence.Table.Selection.{
  All-found, count_key-keep_le, count_key-take_le, All-keep, All-take,
}
use airflow_kbo.Persistence.Session.{Session, StateRow, find_state, state_key, IsSound}
use airflow_kbo.Persistence.Repositories.{insert_by_since, order_by_since, is_locked, queue}

module _ (P : StateRow → Type 0) where
  All-insert :
      (r : StateRow) (rows : List StateRow) → P r → All P rows → All P (insert_by_since r rows)
  unfolding insert_by_since
  All-insert r [] p h = (p, h)
  All-insert r (x ∷ rows) p h = elim (Bool-cases (leb r.state_since x.state_since)) [
    | inl e ↦ rw e (p, h)
    | inr e ↦ rw e (h.0, All-insert r rows p h.1)
  ]

  All-order : (rows : List StateRow) → All P rows → All P (order_by_since rows)
  unfolding order_by_since
  All-order [] h = tt
  All-order (r ∷ rows) h = All-insert r (order_by_since rows) h.0 (All-order rows h.1)

-- Each row is as old as the rows behind it, or older.
abbrev pub IsOrdered : List StateRow → Type 0
IsOrdered [] = Unit
IsOrdered (r ∷ rows) = All (λ (x : StateRow). r.state_since ≤ x.state_since) rows × IsOrdered rows

All-older :
    (a b : ℕ) (rows : List StateRow)
    → a ≤ b
    → All (λ (x : StateRow). b ≤ x.state_since) rows
    → All (λ (x : StateRow). a ≤ x.state_since) rows
All-older a b [] le h = tt
All-older a b (x ∷ rows) le h = (omega arith, All-older a b rows le h.1)

insert-IsOrdered :
    (r : StateRow) (rows : List StateRow) → IsOrdered rows → IsOrdered (insert_by_since r rows)
unfolding insert_by_since
insert-IsOrdered r [] h = (tt, tt)
insert-IsOrdered r (x ∷ rows) h = elim (Bool-cases (leb r.state_since x.state_since)) [
  | inl e ↦
      let le : r.state_since ≤ x.state_since = ground arith in
      rw e ((le, All-older r.state_since x.state_since rows le h.0), h)
  | inr e ↦ rw e (
    All-insert (λ y. x.state_since ≤ y.state_since) r rows (ground arith) h.0,
    insert-IsOrdered r rows h.1,
  )
]

order-IsOrdered : (rows : List StateRow) → IsOrdered (order_by_since rows)
unfolding order_by_since
order-IsOrdered [] = tt
order-IsOrdered (r ∷ rows) = insert-IsOrdered r (order_by_since rows) (order-IsOrdered rows)

count_key-insert :
    (k : String) (r : StateRow) (rows : List StateRow)
    → count_key state_key k (insert_by_since r rows) ≡ count_key state_key k (r ∷ rows)
unfolding insert_by_since count_key
count_key-insert k r [] = refl
count_key-insert k r (x ∷ rows) = ground (arith, count_key-insert k r rows)

count_key-order :
    (k : String) (rows : List StateRow)
    → count_key state_key k (order_by_since rows) ≡ count_key state_key k rows
unfolding order_by_since count_key
count_key-order k [] = refl
count_key-order k (r ∷ rows) =
    ground (arith, count_key-insert k r (order_by_since rows), count_key-order k rows)

any-map-key :
    (k : String) (rows : List StateRow)
    → count_key state_key k rows ≡ 0
    → any (λ j. j == k) (map state_key rows) ≡ false
unfolding count_key
any-map-key k [] h = refl
any-map-key k (x ∷ rows) h = ground (arith, any-map-key k rows)

module _ ⦃u : Unicode⦄ (state : ProcessingState) (s : Session) where
  -- Every number of a list is registered in the given state, and stands in the list once.
  abbrev pub AreQueued : List String → Type 0
  AreQueued [] = Unit
  AreQueued (k ∷ ks) =
      ((row : StateRow) × (find_state k s ≡ some row) × (row.state ≡ state))
      × (any (λ j. j == k) ks ≡ false)
      × IsNumber k
      × AreQueued ks

  -- A row in the state, which no other transaction holds locked.
  abbrev pub IsWaiting : StateRow → Type 0
  IsWaiting r = (r.state ≡ state) × (any (λ k. k == r.enterprise_number) s.locked ≡ false)

  abbrev pub IsEntry : StateRow → Type 0
  IsEntry r =
      (find_state r.enterprise_number s ≡ some r) × IsNumber r.enterprise_number × IsWaiting r

  AreQueued-map :
      (rows : List StateRow)
      → IsUnique state_key rows
      → All IsEntry rows
      → AreQueued (map state_key rows)
  AreQueued-map [] unique h = tt
  AreQueued-map (r ∷ rows) unique h = (
    (r, h.0.0, h.0.2.0),
    any-map-key r.enterprise_number rows (
        unfold count_key in
        ground (arith, unique r.enterprise_number, eq_iff r.enterprise_number r.enterprise_number)),
    h.0.1,
    AreQueued-map rows (λ k. unfold count_key in ground (arith, unique k)) h.1,
  )

  pub All-entries : IsSound s → All IsEntry (queue state s)
  unfolding queue
  All-entries sound = All-order IsEntry (keep passes s.states) (
      All-map _ IsEntry
        (λ r h. (
          h.0.0,
          h.0.1,
          ((state_eq_iff r.state state).0 (ground (arith, h.1)), ground (arith, h.1)),
        ))
        (keep passes s.states)
        (All-keep (λ r. (find_state r.enterprise_number s ≡ some r) × IsNumber r.enterprise_number)
          passes s.states
          (All-both _ (λ r. IsNumber r.enterprise_number) s.states
            (All-found state_key s.states sound.unique_states) sound.numbers)))
    where
      passes : StateRow → Bool
      passes r = state_eq r.state state && not (is_locked s r)

  queue-IsUnique : IsSound s → IsUnique state_key (queue state s)
  unfolding queue
  queue-IsUnique sound k = omega (
    arith,
    count_key-order k
        (keep (λ (r : StateRow). state_eq r.state state && not (is_locked s r)) s.states),
    count_key-keep_le state_key (λ r. state_eq r.state state && not (is_locked s r)) k s.states,
    sound.unique_states k,
  )

  -- The queue is ordered by age.
  pub queue-IsOrdered : IsOrdered (queue state s)
  unfolding queue
  queue-IsOrdered =
      order-IsOrdered
        (keep (λ (r : StateRow). state_eq r.state state && not (is_locked s r)) s.states)

  pub take-queue-AreQueued :
      (limit : ℕ) → IsSound s → AreQueued (map state_key (take limit (queue state s)))
  take-queue-AreQueued limit sound =
      AreQueued-map (take limit (queue state s))
        (λ k.
          omega
            (arith, count_key-take_le state_key limit k (queue state s), queue-IsUnique sound k))
        (All-take IsEntry limit (queue state s) (All-entries sound))

  pub keep-queue-AreQueued :
      (p : StateRow → Bool) → IsSound s → AreQueued (map state_key (keep p (queue state s)))
  keep-queue-AreQueued p sound =
      AreQueued-map (keep p (queue state s))
        (λ k.
          omega (arith, count_key-keep_le state_key p k (queue state s), queue-IsUnique sound k))
        (All-map _ IsEntry (λ r h. h.0) (keep p (queue state s))
          (All-keep IsEntry p (queue state s) (All-entries sound)))
