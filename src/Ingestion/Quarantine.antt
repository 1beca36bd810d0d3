-- ===== src/Ingestion/Quarantine.antt =====
-- packages/ingestion/ingest.py and quarantine.py: the lines that are rejected.
use airflow_kbo.Prelude.{
  ℕ, suc, leb, ltb, ◌+◌, ◌≤◌, String, ◌≡◌, refl, sym, ap, subst, ◌∙◌, Bool, true, false, List, [],
  ◌∷◌, ◌++◌, length, arith, if◌then◌else◌, Bool-cases, inl, inr,
}
use airflow_kbo.Text.{Unicode, strip, truthy}
use airflow_kbo.Action.{
  Exception, ok, err, Result-cases, and_then-eq-ok, pure, raise, ◌>>=◌, value_error,
}
use airflow_kbo.Storage.Paths.{normalize_enterprise_number}
use airflow_kbo.Persistence.Session.{Session, IsSound}
use airflow_kbo.Ingestion.{
  Ingest, IngestReport, QuarantineLine, empty_value, invalid_number, upsert_batch, flush_batch,
  accept_value, ingest_line, flush_rest, ingest_lines, start_ingest, ingest_csv, reject_line,
  report_of,
}
use airflow_kbo.Ingestion.Counts.{ingest_csv_lem}

module _ ⦃u : Unicode⦄ where
  -- The entry of one line: none when it has a value that normalises.
  abbrev pub rejection_of : ℕ × String → List QuarantineLine
  rejection_of (n, raw) =
      if truthy (strip raw)
      then (elim (normalize_enterprise_number (strip raw)) [
        | ok number ↦ []
        | err e ↦ record { line_number = n; raw_value = raw; reason = invalid_number } ∷ []
      ])
      else record { line_number = n; raw_value = raw; reason = empty_value } ∷ []

  abbrev pub rejections : List (ℕ × String) → List QuarantineLine
  rejections [] = []
  rejections (line ∷ lines) = rejection_of line ++ rejections lines

  flush_batch-quarantine :
      (postgresql : Bool) (g g' : Ingest) (s : Session)
      → (flush_batch postgresql g s).0 ≡ ok g'
      → g'.quarantine ≡ g.quarantine
  unfolding flush_batch
  flush_batch-quarantine postgresql g g' s e =
      let batch = upsert_batch postgresql g.pending_valid g.counts g.seen_in_file s in
      let ((counts, seen), f, rest) = and_then-eq-ok batch.0 _ batch.1 e in
      let same : record g { counts = counts; seen_in_file = seen; pending_valid = [] } ≡ g' = cc in
      ap (λ (x : Ingest). x.quarantine) (sym same)

  accept_value-quarantine :
      (postgresql : Bool) (batch_size : ℕ) (value : String) (g g' : Ingest) (s : Session)
      → (accept_value postgresql batch_size value g s).0 ≡ ok g'
      → g'.quarantine ≡ g.quarantine
  unfolding accept_value
  accept_value-quarantine postgresql batch_size value g g' s e =
      let g1 : Ingest = record g { pending_valid = g.pending_valid ++ value ∷ [] } in
      let answers : Bool → Type 0 =
        λ b. ((if b then flush_batch postgresql g1 else pure g1) s).0 ≡ ok g' in
      elim (Bool-cases (leb batch_size (length g1.pending_valid))) [
        | inl full ↦ flush_batch-quarantine postgresql g1 g' s (subst answers full e)
        | inr room ↦
            let kept : answers false = subst answers room e in
            let same : g1 ≡ g' = cc in ap (λ (x : Ingest). x.quarantine) (sym same)
      ]

  append_nil : (xs : List QuarantineLine) → xs ++ [] ≡ xs
  append_nil [] = refl
  append_nil (x ∷ xs) = ap (λ l. x ∷ l) (append_nil xs)

  answered_same : {a b : Ingest} → ok a ≡ ok b → a ≡ b
  answered_same e = cc

  blank_line :
      (postgresql : Bool) (batch_size line_no : ℕ) (raw : String) (g : Ingest) (s : Session)
      → truthy (strip raw) ≡ false
      → ingest_line postgresql batch_size line_no raw g s
        ≡ (ok (reject_line line_no raw empty_value (record g { rows_read = suc g.rows_read })), s)
  unfolding ingest_line
  blank_line postgresql batch_size line_no raw g s blank = rw blank refl

  refused_line :
      (postgresql : Bool) (batch_size line_no : ℕ) (raw : String) (g : Ingest) (s : Session)
      {x : Exception}
      → truthy (strip raw) ≡ true
      → normalize_enterprise_number (strip raw) ≡ err x
      → ingest_line postgresql batch_size line_no raw g s ≡ (
        ok (reject_line line_no raw invalid_number (record g { rows_read = suc g.rows_read })),
        s,
      )
  unfolding ingest_line
  refused_line postgresql batch_size line_no raw g s given refused =
      rw (given, ingest_line) (rw (refused, ingest_line) refl)

  valid_line :
      (postgresql : Bool) (batch_size line_no : ℕ) (raw : String) (g : Ingest) (s : Session)
      {n : String}
      → truthy (strip raw) ≡ true
      → normalize_enterprise_number (strip raw) ≡ ok n
      → ingest_line postgresql batch_size line_no raw g s
        ≡ accept_value postgresql batch_size
            (strip raw)
            (record g { rows_read = suc g.rows_read })
            s
  unfolding ingest_line
  valid_line postgresql batch_size line_no raw g s given valid =
      rw (given, ingest_line) (rw (valid, ingest_line) refl)

  ingest_line-quarantine :
      (postgresql : Bool) (batch_size line_no : ℕ) (raw : String) (g g' : Ingest) (s : Session)
      → (ingest_line postgresql batch_size line_no raw g s).0 ≡ ok g'
      → g'.quarantine ≡ g.quarantine ++ rejection_of (line_no, raw)
  ingest_line-quarantine postgresql batch_size line_no raw g g' s e =
      let read : Ingest = record g { rows_read = suc g.rows_read } in
      elim (Bool-cases (truthy (strip raw))) [
        | inr blank ↦
            let same : reject_line line_no raw empty_value read ≡ g' =
              answered_same (
                sym (ap (λ x. x.0) (blank_line postgresql batch_size line_no raw g s blank)) ∙ e) in
            rw blank (ap (λ (x : Ingest). x.quarantine) (sym same))
        | inl given ↦ elim (Result-cases (normalize_enterprise_number (strip raw))) [
          | inr (x, refused) ↦
              let same : reject_line line_no raw invalid_number read ≡ g' = answered_same (
                sym
                  (ap (λ x. x.0) (refused_line postgresql batch_size line_no raw g s given refused))
                ∙ e) in
              rw given (rw refused (ap (λ (x : Ingest). x.quarantine) (sym same)))
          | inl (n, valid) ↦ rw given (
              rw valid (
                accept_value-quarantine postgresql batch_size (strip raw) read g' s (
                  sym (ap (λ x. x.0) (valid_line postgresql batch_size line_no raw g s given valid))
                  ∙ e)
                ∙ sym (append_nil g.quarantine)))
        ]
      ]

  append_assoc : (xs ys zs : List QuarantineLine) → (xs ++ ys) ++ zs ≡ xs ++ (ys ++ zs)
  append_assoc [] ys zs = refl
  append_assoc (x ∷ xs) ys zs = ap (λ l. x ∷ l) (append_assoc xs ys zs)

  flush_rest-quarantine :
      (postgresql : Bool) (g g' : Ingest) (pending : List String) (s : Session)
      → (flush_rest postgresql g pending s).0 ≡ ok g'
      → g'.quarantine ≡ g.quarantine
  unfolding flush_rest
  flush_rest-quarantine postgresql g g' [] s e =
      let same : g ≡ g' = cc in ap (λ (x : Ingest). x.quarantine) (sym same)
  flush_rest-quarantine postgresql g g' (x ∷ xs) s e = flush_batch-quarantine postgresql g g' s e

  ingest_lines-quarantine :
      (postgresql : Bool) (batch_size : ℕ) (lines : List (ℕ × String)) (g g' : Ingest) (s : Session)
      → (ingest_lines postgresql batch_size lines g s).0 ≡ ok g'
      → g'.quarantine ≡ g.quarantine ++ rejections lines
  unfolding ingest_lines
  ingest_lines-quarantine postgresql batch_size [] g g' s e =
      flush_rest-quarantine postgresql g g' g.pending_valid s e ∙ sym (append_nil g.quarantine)
  ingest_lines-quarantine postgresql batch_size ((line_no, raw) ∷ lines) g g' s e =
      let one = ingest_line postgresql batch_size line_no raw g s in
      let (g1, f, rest) = and_then-eq-ok one.0 _ one.1 e in
      ingest_lines-quarantine postgresql batch_size lines g1 g' one.1 rest
      ∙ ap (λ q. q ++ rejections lines)
          (ingest_line-quarantine postgresql batch_size line_no raw g g1 s f)
      ∙ append_assoc g.quarantine (rejection_of (line_no, raw)) (rejections lines)

  ingest_csv-quarantine :
      (postgresql : Bool) (batch_size : ℕ) (lines : List (ℕ × String)) (s : Session)
      (r : IngestReport)
      → 1 ≤ batch_size
      → (ingest_csv postgresql batch_size lines s).0 ≡ ok r
      → r.quarantine ≡ rejections lines
  unfolding ingest_csv
  ingest_csv-quarantine postgresql batch_size lines s r some_size e =
      let large : ltb batch_size 1 ≡ false = ground arith in
      let all_lines = ingest_lines postgresql batch_size lines start_ingest in
      let answers : Bool → Type 0 = λ b.
        ((if b then raise value_error else all_lines >>= λ g. pure (report_of g)) s).0 ≡ ok r in
      let (g, f, rest) =
        and_then-eq-ok (all_lines s).0 (λ g. pure (report_of g)) (all_lines s).1
          (subst answers large e) in
      let same : report_of g ≡ r = cc in
      ap (λ (x : IngestReport). x.quarantine) (sym same)
      ∙ ingest_lines-quarantine postgresql batch_size lines start_ingest g s f

  -- A file is read to its end: on a sound database and with a batch size of one or more, an ingestion
  -- returns a report. The quarantine has exactly the lines whose value is empty or does not
  -- normalise, in the order of the file, each with its number, its value and the reason. The report
  -- counts every line once: as rejected those of the quarantine, the other ones as created or as
  -- already there; the table of enterprises has grown by the created ones; the database stays sound.
  pub ingest_csv-Quarantines :
      (postgresql : Bool) (batch_size : ℕ) (lines : List (ℕ × String)) (s : Session)
      → IsSound s
      → 1 ≤ batch_size
      → (r : IngestReport) × (s' : Session) × (ingest_csv postgresql batch_size lines s
          ≡ (ok r, s'))
        × (r.quarantine ≡ rejections lines)
        × (r.rejected ≡ length (rejections lines))
        × (r.rows_read ≡ length lines)
        × (r.rows_read ≡ r.created + r.already_existed + r.rejected)
        × (length s'.enterprises ≡ length s.enterprises + r.created)
        × IsSound s'
  ingest_csv-Quarantines postgresql batch_size lines s sound some_size =
      let (r, s', done, all_read, counted, entries, grown, sound', life) =
        ingest_csv_lem postgresql batch_size lines s sound some_size in
      let listed =
        ingest_csv-quarantine postgresql batch_size lines s r some_size (ap (λ x. x.0) done) in
      (r, s', done, listed, sym entries ∙ ap length listed, all_read, counted, grown, sound')
