-- ===== src/Scanner/Resolve.antt =====
-- The start of a chunk: what the last chunk left open, against the machine.
use data_table_viewer.Prelude.{
  ℕ, ◌+◌, Bool, true, false, [], ◌∷◌, ◌≡◌, refl, sym, ap, subst, ◌==◌, length, Bytes, arith,
  Bool-cases, inl, inr,
}
use data_table_viewer.Scanner.{Callbacks, State}
use data_table_viewer.Scanner.Feed.{first_start, resolve_cr, resolve_quote, start_at}
use data_table_viewer.Scanner.Machine.{Machine, field, IsStream, step_in, step, run}
use data_table_viewer.Scanner.Simulation.{view, IsReady, emit_fragment_lem}
use data_table_viewer.Scanner.Rounds.{IsBetween, seen}

module _ {S : Type 0} where
  pub view-first_start :
      (st : State S) (offset : ℕ) → IsBetween st.scanner → view (first_start st offset) ≡ view st
  unfolding first_start
  view-first_start st offset b = ground arith

  pub delimiter-first_start :
      (st : State S) (offset : ℕ) → (first_start st offset).scanner.delimiter ≡ st.scanner.delimiter
  unfolding first_start
  delimiter-first_start st offset = ground arith

  pub first_start-IsBetween :
      (st : State S) (offset : ℕ) → IsBetween st.scanner → IsBetween (first_start st offset).scanner
  unfolding first_start
  first_start-IsBetween st offset b = ground arith

module _ {S : Type 0} (cb : Callbacks S) (stream : IsStream cb) where
  -- What the start of a chunk with a byte in it leaves for the loop: `t` is a state, and where the
  -- loop begins.
  abbrev pub Resolved : State S → ℕ → Bytes → State S × ℕ × Bytes → Type 0
  Resolved st offset bytes t =
      IsReady t.0.scanner
      × (t.0.scanner.delimiter ≡ st.scanner.delimiter)
      × (run cb st.scanner.delimiter (view t.0) t.1 t.2
          ≡ run cb st.scanner.delimiter (view st) offset bytes)
      × (t.1 + length t.2 ≡ offset + length bytes)

  resolve_quote-id :
      (is_eof : Bool) (st : State S) (offset : ℕ) (bytes : Bytes)
      → st.scanner.pending_quote ≡ false
      → resolve_quote cb is_eof st offset bytes ≡ (st, offset, bytes)
  unfolding resolve_quote
  resolve_quote-id is_eof st offset [] h = rw h
  resolve_quote-id is_eof st offset (c ∷ rest) h = rw h

  resolve_quote-escaped :
      (is_eof : Bool) (st : State S) (offset : ℕ) (rest : Bytes)
      → st.scanner.pending_quote ≡ true
      → resolve_quote cb is_eof st offset (b'"' ∷ rest) ≡ (
        record {
          scanner = record (st.scanner) { pending_quote = false; in_quotes = true };
          out = field cb st.scanner.col_index (b'"' ∷ []) false st.out;
        },
        offset + 1,
        rest,
      )
  unfolding resolve_quote
  resolve_quote-escaped is_eof st offset rest h = rw (h, emit_fragment_lem cb stream)

  resolve_quote-closed :
      (is_eof : Bool) (st : State S) (offset c : ℕ) (rest : Bytes)
      → st.scanner.pending_quote ≡ true
      → (c == b'"') ≡ false
      → resolve_quote cb is_eof st offset (c ∷ rest) ≡ (
        record st { scanner = record (st.scanner) { pending_quote = false; in_quotes = false } },
        offset,
        c ∷ rest,
      )
  unfolding resolve_quote
  resolve_quote-closed is_eof st offset c rest h e = rw (h, e)

  -- One step of the machine from equal steps.
  run_from :
      (d offset c : ℕ) (rest : Bytes) (m' m : Machine S)
      → step cb d m' offset c ≡ step cb d m offset c
      → run cb d m' offset (c ∷ rest) ≡ run cb d m offset (c ∷ rest)
  unfolding run
  run_from d offset c rest m' m e = ap (λ m. run cb d m (offset + 1) rest) e

  run_after :
      (d offset c : ℕ) (rest : Bytes) (m' m : Machine S)
      → m' ≡ step cb d m offset c
      → run cb d m' (offset + 1) rest ≡ run cb d m offset (c ∷ rest)
  unfolding run
  run_after d offset c rest m' m e = ap (λ m. run cb d m (offset + 1) rest) e

  -- Only a quote can be pending.
  resolve_quote-Resolved :
      (is_eof : Bool) (st : State S) (offset c : ℕ) (rest : Bytes)
      → st.scanner.pending_cr ≡ false
      → st.scanner.has_record_start ≡ true
      → st.scanner.bom_checked ≡ true
      → Resolved st offset (c ∷ rest) (resolve_quote cb is_eof st offset (c ∷ rest))
  unfolding step_in
  resolve_quote-Resolved is_eof st offset c rest h s w =
      elim (Bool-cases st.scanner.pending_quote) [
        | inr q ↦
            rw (resolve_quote-id is_eof st offset (c ∷ rest) q)
              (record { no_cr = h; no_quote = q; started = s; checked = w }, refl, refl, refl)
        | inl q ↦ elim (Bool-cases (c == b'"')) [
          | inl e ↦
              let e' : c ≡ b'"' = ground arith in
              rw (e', resolve_quote-escaped is_eof st offset rest q)
                (
                  record { no_cr = h; no_quote = refl; started = s; checked = w },
                  refl,
                  run_after _ offset b'"' rest _ _ (ground arith),
                  omega arith,
                )
          | inr e ↦ rw (resolve_quote-closed is_eof st offset c rest q e) (
            record { no_cr = h; no_quote = refl; started = s; checked = w },
            refl,
            run_from _ offset c rest _ _ (ground arith),
            refl,
          )
        ]
      ]

  -- What the two stages do to a chunk with a byte in it.
  abbrev pub resolved : Bool → State S → ℕ → Bytes → State S × ℕ × Bytes
  resolved is_eof st offset bytes =
      let t = resolve_cr is_eof st offset bytes in resolve_quote cb is_eof t.0 t.1 t.2

  after_cr : State S → ℕ → State S
  after_cr st offset = record st {
    scanner = start_at (record (st.scanner) { pending_cr = false }) offset;
  }

  resolved-lf :
      (is_eof : Bool) (st : State S) (offset : ℕ) (rest : Bytes)
      → st.scanner.pending_cr ≡ true
      → st.scanner.pending_quote ≡ false
      → resolved is_eof st offset (b'\n' ∷ rest) ≡ (after_cr st (offset + 1), offset + 1, rest)
  unfolding resolve_cr after_cr
  resolved-lf is_eof st offset rest h q =
      rw h
        (resolve_quote-id is_eof (unfold after_cr in after_cr st (offset + 1)) (offset + 1) rest q)

  resolved-other :
      (is_eof : Bool) (st : State S) (offset c : ℕ) (rest : Bytes)
      → st.scanner.pending_cr ≡ true
      → st.scanner.pending_quote ≡ false
      → (c == b'\n') ≡ false
      → resolved is_eof st offset (c ∷ rest) ≡ (after_cr st offset, offset, c ∷ rest)
  unfolding resolve_cr after_cr
  resolved-other is_eof st offset c rest h q e =
      rw (h, e) (resolve_quote-id is_eof (after_cr st offset) offset (c ∷ rest) q)

  resolved-no_cr :
      (is_eof : Bool) (st : State S) (offset c : ℕ) (rest : Bytes)
      → st.scanner.pending_cr ≡ false
      → resolved is_eof st offset (c ∷ rest) ≡ resolve_quote cb is_eof st offset (c ∷ rest)
  unfolding resolve_cr
  resolved-no_cr is_eof st offset c rest h = simp h

  pub resolved-Resolved :
      (is_eof : Bool) (st : State S) (offset c : ℕ) (rest : Bytes)
      → IsBetween st.scanner
      → Resolved st offset (c ∷ rest) (resolved is_eof st offset (c ∷ rest))
  unfolding step_in after_cr
  resolved-Resolved is_eof st offset c rest b = elim (Bool-cases st.scanner.pending_cr) [
    | inr h ↦
        subst (Resolved st offset (c ∷ rest)) (sym (resolved-no_cr is_eof st offset c rest h))
          (resolve_quote-Resolved is_eof st offset c rest h (ground arith) b.checked)
    | inl h ↦
        let q : st.scanner.pending_quote ≡ false = ground arith in
        elim (Bool-cases (c == b'\n')) [
          | inl e ↦
              let e' : c ≡ b'\n' = ground arith in
              rw e' (
                subst (Resolved st offset (b'\n' ∷ rest))
                  (sym (resolved-lf is_eof st offset rest h q))
                  (
                    record { no_cr = refl; no_quote = q; started = refl; checked = b.checked },
                    refl,
                    run_after _ offset b'\n' rest _ _ (ground arith),
                    omega arith,
                  ))
          | inr e ↦
              subst (Resolved st offset (c ∷ rest))
                (sym (resolved-other is_eof st offset c rest h q e))
                (
                  record { no_cr = refl; no_quote = q; started = refl; checked = b.checked },
                  refl,
                  run_from _ offset c rest _ _ (ground arith),
                  refl,
                )
        ]
  ]

  pub seen_fresh :
      (st : State S) (offset : ℕ)
      → seen cb (record { state = st; offset = offset; span = [] }) ≡ view st
  seen_fresh st offset = rw (stream.field-nil)
