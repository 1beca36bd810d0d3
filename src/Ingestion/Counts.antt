-- ===== src/Ingestion/Counts.antt =====
-- packages/ingestion/ingest.py: every line of a file is counted once, and the database stays sound.
use airflow_kbo.Prelude.{
  ℕ, suc, ◌+◌, ◌≤◌, String, ◌≡◌, refl, ap, Bool, true, false, List, [], ◌∷◌, ◌++◌, map,
  if◌then◌else◌, Bool-cases, inl, inr, length, length-append, All, All-append, arith, leb, ltb,
}
use airflow_kbo.Text.{Unicode, strip, truthy}
use airflow_kbo.Action.{Result, ok, Result-cases, pure}
use airflow_kbo.Storage.Paths.{normalize_enterprise_number, normalize-IsNumber, IsNumber}
use airflow_kbo.Persistence.Session.{Session, IsSound, enterprise_key}
use airflow_kbo.Persistence.Life.{Evolves, Evolves-refl, Evolves-trans}
use airflow_kbo.Ingestion.{
  insert_ignoring, Counts, Batch, is_in, seed, add_to_batch, collect_batch, write_batch,
  upsert_batch, Ingest, IngestReport, Rejection, empty_value, invalid_number, flush_batch,
  accept_value, reject_line, ingest_line, flush_rest, ingest_lines, start_ingest, report_of,
  ingest_csv,
}
use airflow_kbo.Ingestion.Alike.{upsert_new_lem}

module _ {A : Type 0} (key : A → String) where
  insert_ignoring-length :
      (rows table : List A)
      → length (insert_ignoring key rows table).0
        ≡ length table + length (insert_ignoring key rows table).1
  unfolding insert_ignoring
  insert_ignoring-length [] table = omega arith
  insert_ignoring-length (r ∷ rows) table = ground (
    arith,
    insert_ignoring-length rows table,
    insert_ignoring-length rows (table ++ r ∷ []),
    length-append table (r ∷ []),
  )

module _ ⦃u : Unicode⦄ where
  abbrev pub IsValid : String → Type 0
  IsValid raw = (n : String) × (normalize_enterprise_number raw ≡ ok n)

  add_to_batch_lem :
      (number : String) (b : Batch)
      → IsNumber number
      → All IsNumber b.unique_new
      → All IsNumber (add_to_batch number b).unique_new
        × (length (add_to_batch number b).unique_new + (add_to_batch number b).already_existed
            ≡ suc (length b.unique_new + b.already_existed))
  add_to_batch_lem number b ten tens = elim (Bool-cases (is_in number b.seen)) [
    | inl again ↦ rw again (tens, omega arith)
    | inr first ↦ rw first (
      All-append IsNumber b.unique_new (number ∷ []) tens (ten, tt),
      omega (arith, length-append b.unique_new (number ∷ [])),
    )
  ]

  -- A batch of valid values: each is a new number or counted as known.
  collect_batch_lem :
      (raws : List String) (b : Batch)
      → All IsValid raws
      → All IsNumber b.unique_new
      → (b' : Batch) × (collect_batch raws b ≡ ok b')
        × All IsNumber b'.unique_new
        × (length b'.unique_new + b'.already_existed
            ≡ length b.unique_new + b.already_existed + length raws)
  unfolding collect_batch
  collect_batch_lem [] b valid tens = (b, refl, tens, omega arith)
  collect_batch_lem (raw ∷ raws) b ((n, e), valid) tens =
      let (tens1, counted) = add_to_batch_lem n b (normalize-IsNumber raw e) tens in
      let (b', done, tens', total) = collect_batch_lem raws (add_to_batch n b) valid tens1 in
      (b', rw (e, collect_batch) done, tens', omega (arith, counted, total))

  -- What a write of a batch adds.
  abbrev pub Written : List String → Counts → Session → Counts → Session → Type 0
  Written raws c s c' s' =
      (c'.0 + c'.1 ≡ c.0 + c.1 + length raws)
      × (length s'.enterprises + c.0 ≡ length s.enterprises + c'.0)
      × IsSound s'
      × Evolves s s'

  write_new :
      (postgresql : Bool) (numbers : List String) (c : Counts) (s : Session)
      → IsSound s
      → All IsNumber numbers
      → (c' : Counts) × (s' : Session) × (write_batch postgresql numbers c s ≡ (ok c', s'))
        × Written numbers c s c' s'
  unfolding write_batch
  write_new postgresql [] c s sound tens =
      (c, s, refl, (omega arith, omega arith, sound, Evolves-refl s))
  write_new postgresql (n ∷ ns) c s sound tens =
      let (c', s', done, v, sound', life) = upsert_new_lem postgresql (n ∷ ns) c s sound tens in
      (
        c',
        s',
        done,
        (
          v.counted,
          omega (
            arith,
            ap length v.enterprises,
            v.created,
            insert_ignoring-length enterprise_key (map seed (n ∷ ns)) s.enterprises,
          ),
          sound',
          life,
        ),
      )

  upsert_batch_lem :
      (postgresql : Bool) (raws : List String) (c : Counts) (seen : List String) (s : Session)
      → IsSound s
      → All IsValid raws
      → (c' : Counts) × (seen' : List String) × (s' : Session) × (upsert_batch postgresql raws c
            seen s
          ≡ (ok (c', seen'), s'))
        × Written raws c s c' s'
  unfolding upsert_batch
  upsert_batch_lem postgresql raws (created, already_existed) seen s sound valid =
      let start : Batch = record {
        unique_new = [];
        already_existed = already_existed;
        seen = seen;
      } in
      let (b, collected, tens, total) = collect_batch_lem raws start valid tt in
      let (c', s', done, (counted, grown, sound', life)) =
        write_new postgresql b.unique_new (created, b.already_existed) s sound tens in
      (
        c',
        b.seen,
        s',
        rw collected (rw done refl),
        (omega (arith, counted, total), grown, sound', life),
      )

  -- What holds between the lines of a file, after so many of them.
  pub record IsIngest (before : Session) (g : Ingest) (s : Session) : Type 0 where
    pub sound : IsSound s
    pub life : Evolves before s
    pub counted : g.rows_read ≡ g.counts.0 + g.counts.1 + g.rejected + length g.pending_valid
    pub quarantined : length g.quarantine ≡ g.rejected
    pub grown : length s.enterprises ≡ length before.enterprises + g.counts.0
    pub valid : All IsValid g.pending_valid

  flush_batch_lem :
      (postgresql : Bool) (before : Session) (g : Ingest) (s : Session)
      → IsIngest before g s
      → (g' : Ingest) × (s' : Session) × (flush_batch postgresql g s ≡ (ok g', s'))
        × IsIngest before g' s'
        × (g'.rows_read ≡ g.rows_read)
        × (g'.pending_valid ≡ [])
  unfolding flush_batch
  flush_batch_lem postgresql before g s inv =
      let (c', seen', s', done, (counted, grown, sound', life)) =
        upsert_batch_lem postgresql g.pending_valid g.counts g.seen_in_file s inv.sound inv.valid in
      (
        record g { counts = c'; seen_in_file = seen'; pending_valid = [] },
        s',
        rw done refl,
        record {
          sound = sound';
          life = Evolves-trans before s s' inv.life life;
          counted = omega (arith, counted, inv.counted);
          quarantined = inv.quarantined;
          grown = omega (arith, grown, inv.grown);
          valid = tt;
        },
        refl,
        refl,
      )

  -- The invariant after one more line.
  abbrev NextLine : Session → Ingest → Result Ingest × Session → Type 0
  NextLine before g out =
      (g' : Ingest) × (out.0 ≡ ok g') × IsIngest before g' out.1 × (g'.rows_read ≡ suc g.rows_read)

  reject_line_lem :
      (line_no : ℕ) (raw : String) (reason : Rejection) (before : Session) (g : Ingest)
      (s : Session)
      → IsIngest before g s
      → NextLine before g
          (ok (reject_line line_no raw reason (record g { rows_read = suc g.rows_read })), s)
  reject_line_lem line_no raw reason before g s inv = (
    reject_line line_no raw reason (record g { rows_read = suc g.rows_read }),
    refl,
    record {
      sound = inv.sound;
      life = inv.life;
      counted = omega (arith, inv.counted);
      quarantined = omega (
        arith,
        inv.quarantined,
        length-append g.quarantine
            (record { line_number = line_no; raw_value = raw; reason = reason } ∷ []),
      );
      grown = inv.grown;
      valid = inv.valid;
    },
    refl,
  )

  accept_value_lem :
      (postgresql : Bool) (batch_size : ℕ) (value n : String) (before : Session) (g : Ingest)
      (s : Session)
      → IsIngest before g s
      → normalize_enterprise_number value ≡ ok n
      → NextLine before g
          (accept_value postgresql batch_size value (record g { rows_read = suc g.rows_read }) s)
  unfolding accept_value
  accept_value_lem postgresql batch_size value n before g s inv e =
      let g1 : Ingest = record g {
        rows_read = suc g.rows_read;
        pending_valid = g.pending_valid ++ value ∷ [];
      } in
      let inv1 : IsIngest before g1 s = record {
        sound = inv.sound;
        life = inv.life;
        counted = omega (arith, inv.counted, length-append g.pending_valid (value ∷ []));
        quarantined = inv.quarantined;
        grown = inv.grown;
        valid = All-append IsValid g.pending_valid (value ∷ []) inv.valid ((n, e), tt);
      } in
      let (g2, s2, done, inv2, same, none_left) = flush_batch_lem postgresql before g1 s inv1 in
      elim (leb batch_size (length g1.pending_valid))
        as (λ b. NextLine before g ((if b then flush_batch postgresql g1 else pure g1) s)) [
          | true ↦ rw done (g2, refl, inv2, same)
          | false ↦ (g1, refl, inv1, refl)
        ]

  ingest_line_lem :
      (postgresql : Bool) (batch_size line_no : ℕ) (raw : String) (before : Session) (g : Ingest)
      (s : Session)
      → IsIngest before g s
      → NextLine before g (ingest_line postgresql batch_size line_no raw g s)
  unfolding ingest_line
  ingest_line_lem postgresql batch_size line_no raw before g s inv =
      elim (Bool-cases (truthy (strip raw))) [
        | inr blank ↦ rw blank (reject_line_lem line_no raw empty_value before g s inv)
        | inl given ↦ elim (Result-cases (normalize_enterprise_number (strip raw))) [
          | inr (e, refused) ↦
              rw (given, ingest_line)
                (rw (refused, ingest_line)
                  (reject_line_lem line_no raw invalid_number before g s inv))
          | inl (n, e) ↦
              rw (given, ingest_line)
                (rw (e, ingest_line)
                  (accept_value_lem postgresql batch_size (strip raw) n before g s inv e))
        ]
      ]

  flush_rest_lem :
      (postgresql : Bool) (before : Session) (g : Ingest) (pending : List String) (s : Session)
      → g.pending_valid ≡ pending
      → IsIngest before g s
      → (g' : Ingest) × (s' : Session) × (flush_rest postgresql g pending s ≡ (ok g', s'))
        × IsIngest before g' s'
        × (g'.rows_read ≡ g.rows_read)
        × (g'.pending_valid ≡ [])
  unfolding flush_rest
  flush_rest_lem postgresql before g [] s e inv = (g, s, refl, inv, refl, e)
  flush_rest_lem postgresql before g (x ∷ xs) s e inv = flush_batch_lem postgresql before g s inv

  ingest_lines_lem :
      (postgresql : Bool) (batch_size : ℕ) (lines : List (ℕ × String)) (before : Session)
      (g : Ingest) (s : Session)
      → IsIngest before g s
      → (g' : Ingest) × (s' : Session) × (ingest_lines postgresql batch_size lines g s
          ≡ (ok g', s'))
        × IsIngest before g' s'
        × (g'.rows_read ≡ g.rows_read + length lines)
        × (g'.pending_valid ≡ [])
  unfolding ingest_lines
  ingest_lines_lem postgresql batch_size [] before g s inv =
      let (g', s', done, inv', same, none_left) =
        flush_rest_lem postgresql before g g.pending_valid s refl inv in
      (g', s', done, inv', omega (arith, same), none_left)
  ingest_lines_lem postgresql batch_size ((line_no, raw) ∷ lines) before g s inv =
      let (g1, done, inv1, one) =
        ingest_line_lem postgresql batch_size line_no raw before g s inv in
      let s1 = (ingest_line postgresql batch_size line_no raw g s).1 in
      let (g', s', later, inv', all_read, none_left) =
        ingest_lines_lem postgresql batch_size lines before g1 s1 inv1 in
      (g', s', rw done later, inv', omega (arith, one, all_read), none_left)

  pub ingest_csv_lem :
      (postgresql : Bool) (batch_size : ℕ) (lines : List (ℕ × String)) (s : Session)
      → IsSound s
      → 1 ≤ batch_size
      → (r : IngestReport) × (s' : Session) × (ingest_csv postgresql batch_size lines s
          ≡ (ok r, s'))
        × (r.rows_read ≡ length lines)
        × (r.rows_read ≡ r.created + r.already_existed + r.rejected)
        × (length r.quarantine ≡ r.rejected)
        × (length s'.enterprises ≡ length s.enterprises + r.created)
        × IsSound s'
        × Evolves s s'
  unfolding ingest_csv
  ingest_csv_lem postgresql batch_size lines s sound some_size =
      let (g, s', done, inv, all_read, none_left) =
        ingest_lines_lem postgresql batch_size lines s start_ingest s (record {
          sound = sound;
          life = Evolves-refl s;
          counted = refl;
          quarantined = refl;
          grown = omega arith;
          valid = tt;
        }) in
      let large : ltb batch_size 1 ≡ false = ground arith in
      (
        report_of g,
        s',
        rw large (rw done refl),
        omega (arith, all_read),
        omega (arith, inv.counted, ap length none_left),
        inv.quarantined,
        inv.grown,
        inv.sound,
        inv.life,
      )
