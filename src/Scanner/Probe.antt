-- ===== src/Scanner/Probe.antt =====
-- The probe for a byte order mark: whatever the first chunks are, it leaves a scanner that has read
-- what the machine has read.
use data_table_viewer.Prelude.{
  ℕ, ◌+◌, ◌≤◌, ◌<◌, Bool, true, false, ◌||◌, [], ◌∷◌, ◌++◌, ◌≡◌, refl, sym, ap, subst, ◌∙◌, length,
  Bytes, arith, take, drop, leb, is_empty, length-append, length-take, length-drop,
  take-append-drop, Bool-cases, inl, inr, dec_lt,
}
use data_table_viewer.Scanner.{Callbacks, CancelCheck, State, new, is_bom}
use data_table_viewer.Scanner.Feed.{
  Probe, waiting, ready, feed_body, probe_filled, probe_buffered, probe,
}
use data_table_viewer.Scanner.Machine.{IsStream, fresh, run, read_prefix}
use data_table_viewer.Scanner.Simulation.{view}
use data_table_viewer.Scanner.Rounds.{IsBetween}
use data_table_viewer.Scanner.Loop.{Never, Fed}
use data_table_viewer.Scanner.Chunks.{feed_body-Fed}
use data_table_viewer.Scanner.Prefix.{
  take-min, drop-min, buffer_filled, rest_filled, offset_filled, is_bom-length, read_prefix-bom,
  read_prefix-plain, read_prefix-filled, read_prefix-empty, read_prefix-append, drop_all, take_all,
}

-- A new scanner that has only put its first bytes aside.
abbrev pub buffering : {S : Type 0} → ℕ → S → Bytes → State S
buffering d s pre = record { scanner = record (new d) { bom_buffer = pre }; out = s }

-- A scanner at its first byte of data.
abbrev pub opened : {S : Type 0} → ℕ → S → Bool → ℕ → State S
opened d s bom start = record {
  scanner = record (new d) {
    bom_checked = true;
    has_record_start = true;
    has_bom = bom;
    current_record_start = start;
  };
  out = s;
}

abbrev pub delimiter_of : ℕ → ℕ
delimiter_of d = (new d).delimiter

module _ {S : Type 0} (cb : Callbacks S) (stream : IsStream cb) (cancel : CancelCheck S)
    (never : Never cancel) (d : ℕ) (s : S) where
  pub opened-IsBetween : (bom : Bool) (start : ℕ) → IsBetween (opened d s bom start).scanner
  unfolding new
  opened-IsBetween bom start = record { cr_outside = refl; started = refl; checked = refl }

  pub view-opened : (bom : Bool) (start : ℕ) → view (opened d s bom start) ≡ fresh start s
  unfolding new
  view-opened bom start = refl

  -- The probe is done, and what it leaves to `feed_body` comes to reading `whole`.
  pub record Ready (whole : Bytes) (p : Probe S) : Type 0 where
    pub state : State S
    pub offset : ℕ
    pub rest : Bytes
    pub probed : p ≡ ready state offset rest
    pub between : IsBetween state.scanner
    pub delimits : state.scanner.delimiter ≡ delimiter_of d
    pub reads :
        run cb (delimiter_of d) (view state) offset rest ≡ read_prefix cb (delimiter_of d) s whole
    pub ends : offset + length rest ≡ length whole

  -- The probe's buffer `b`, and what is left of the chunk.
  module _ (is_eof : Bool) (pre b rest : Bytes) where
    filled-bom :
        is_bom b ≡ true
        → probe_filled cb is_eof cancel (buffering d s pre) b (length b) rest
          ≡ ready (opened d s true 3) (length b) rest
    unfolding probe_filled new
    filled-bom e = let n = is_bom-length b e in ground arith

    filled-empty :
        is_bom b ≡ false
        → is_empty b ≡ true
        → (leb 3 (length b) || is_eof) ≡ true
        → probe_filled cb is_eof cancel (buffering d s pre) b (length b) rest
          ≡ ready (opened d s false 0) (length b) rest
    unfolding probe_filled new
    filled-empty e n g = ground arith

    empty : is_empty b ≡ true → b ≡ []
    empty z = ground arith

    nested : Bool × State S
    nested = feed_body cb false cancel (length b) (opened d s false 0) 0 b

    nested-Fed : Fed cb (delimiter_of d) (run cb (delimiter_of d) (fresh 0 s) 0 b) nested
    unfolding nested new
    nested-Fed =
        feed_body-Fed cb stream cancel never (length b) 0 (opened d s false 0) b
          (opened-IsBetween false 0)

    filled-plain :
        is_bom b ≡ false
        → is_empty b ≡ false
        → (leb 3 (length b) || is_eof) ≡ true
        → probe_filled cb is_eof cancel (buffering d s pre) b (length b) rest
          ≡ ready nested.1 (length b) rest
    unfolding probe_filled new nested
    filled-plain e n g = let f : nested.0 ≡ true = nested-Fed.0 in ground arith

    filled-Ready :
        length b ≤ 3
        → (leb 3 (length b) || is_eof) ≡ true
        → (length b < 3 → rest ≡ [])
        → Ready (b ++ rest) (probe_filled cb is_eof cancel (buffering d s pre) b (length b) rest)
    filled-Ready n g short = elim (Bool-cases (is_bom b)) [
      | inl e ↦
          let k = is_bom-length b e in
          let three : length b ≡ 3 = omega arith in
          record {
            state = opened d s true 3;
            offset = length b;
            rest = rest;
            probed = filled-bom e;
            between = opened-IsBetween true 3;
            delimits = refl;
            reads =
                ap (λ m. run cb (delimiter_of d) m (length b) rest)
                  (view-opened true 3 ∙ sym (read_prefix-bom cb (delimiter_of d) s b e n))
                ∙ sym (read_prefix-append cb (delimiter_of d) s b rest k);
            ends = sym (length-append b rest);
          }
      | inr e ↦ elim (Bool-cases (is_empty b)) [
        | inl z ↦ record {
          state = opened d s false 0;
          offset = length b;
          rest = rest;
          probed = filled-empty e z g;
          between = opened-IsBetween false 0;
          delimits = refl;
          reads =
              ap (λ m. run cb (delimiter_of d) m (length b) rest)
                (view-opened false 0
                  ∙ sym (read_prefix-empty cb (delimiter_of d) s)
                  ∙ ap (read_prefix cb (delimiter_of d) s) (sym (empty z)))
              ∙ sym (read_prefix-filled cb (delimiter_of d) s b rest short);
          ends = sym (length-append b rest);
        }
        | inr z ↦ record {
          state = nested.1;
          offset = length b;
          rest = rest;
          probed = filled-plain e z g;
          between = nested-Fed.2;
          delimits = nested-Fed.1;
          reads =
              ap (λ m. run cb (delimiter_of d) m (length b) rest)
                (nested-Fed.3 ∙ sym (read_prefix-plain cb (delimiter_of d) s b e))
              ∙ sym (read_prefix-filled cb (delimiter_of d) s b rest short);
          ends = sym (length-append b rest);
        }
      ]
    ]

  probe-next :
      (is_eof : Bool) (a : ℕ) (pre chunk : Bytes)
      → probe cb is_eof cancel (buffering d s (a ∷ pre)) (length (a ∷ pre)) chunk
        ≡ probe_buffered cb is_eof cancel (buffering d s (a ∷ pre)) (length (a ∷ pre)) chunk
  unfolding probe new
  probe-next is_eof a pre chunk = ground arith

  probe-short :
      (is_eof : Bool) (chunk : Bytes)
      → length chunk < 3
      → probe cb is_eof cancel (buffering d s []) 0 chunk
        ≡ probe_buffered cb is_eof cancel (buffering d s []) 0 chunk
  unfolding probe new
  probe-short is_eof chunk n = ground arith

  probe-bom :
      (is_eof : Bool) (chunk : Bytes)
      → 3 ≤ length chunk
      → is_bom chunk ≡ true
      → probe cb is_eof cancel (buffering d s []) 0 chunk
        ≡ ready (opened d s true 3) 3 (drop 3 chunk)
  unfolding probe new
  probe-bom is_eof chunk n e = ground arith

  probe-plain :
      (is_eof : Bool) (chunk : Bytes)
      → 3 ≤ length chunk
      → is_bom chunk ≡ false
      → probe cb is_eof cancel (buffering d s []) 0 chunk ≡ ready (opened d s false 0) 0 chunk
  unfolding probe new
  probe-plain is_eof chunk n e = ground arith

  -- The probe puts the chunk behind what it has put aside.
  probe_buffered_lem :
      (is_eof : Bool) (pre chunk : Bytes)
      → length pre < 3
      → probe_buffered cb is_eof cancel (buffering d s pre) (length pre) chunk
        ≡ probe_filled cb is_eof cancel
            (buffering d s pre)
            (take 3 (pre ++ chunk))
            (length (take 3 (pre ++ chunk)))
            (drop 3 (pre ++ chunk))
  unfolding probe_buffered
  probe_buffered_lem is_eof pre chunk h =
      rw (take-min, drop-min, offset_filled pre chunk h)
        (rw (buffer_filled pre chunk h, rest_filled pre chunk h, length-take, length-append))

  whole_filled :
      (is_eof : Bool) (pre chunk : Bytes)
      → length pre < 3
      → (leb 3 (length (pre ++ chunk)) || is_eof) ≡ true
      → Ready
          (pre ++ chunk)
          (probe_buffered cb is_eof cancel (buffering d s pre) (length pre) chunk)
  whole_filled is_eof pre chunk h g =
      let whole = pre ++ chunk in
      subst (Ready whole) (sym (probe_buffered_lem is_eof pre chunk h)) (
        subst
          (λ w. Ready w (
            probe_filled cb is_eof cancel (buffering d s pre) (take 3 whole) (length (take 3 whole))
              (drop 3 whole)))
          (take-append-drop 3 whole)
          (filled-Ready is_eof pre (take 3 whole) (drop 3 whole)
            (omega (arith, length-take 3 whole)) (ground (arith, length-take 3 whole))
            (λ n. drop_all 3 whole (omega (arith, length-take 3 whole)))))

  -- The probe, once three bytes or the end of the source are there.
  pub probe-Ready :
      (is_eof : Bool) (pre chunk : Bytes)
      → length pre < 3
      → (leb 3 (length (pre ++ chunk)) || is_eof) ≡ true
      → Ready (pre ++ chunk) (probe cb is_eof cancel (buffering d s pre) (length pre) chunk)
  probe-Ready is_eof (a ∷ pre) chunk h g =
      subst (Ready ((a ∷ pre) ++ chunk)) (sym (probe-next is_eof a pre chunk))
        (whole_filled is_eof (a ∷ pre) chunk h g)
  probe-Ready is_eof [] chunk h g = elim (dec_lt (length chunk) 3) [
    | yes n ↦
        subst (Ready chunk) (sym (probe-short is_eof chunk n)) (whole_filled is_eof [] chunk h g)
    | no n ↦ elim (Bool-cases (is_bom chunk)) [
      | inl e ↦ record {
        state = opened d s true 3;
        offset = 3;
        rest = drop 3 chunk;
        probed = probe-bom is_eof chunk (omega arith) e;
        between = opened-IsBetween true 3;
        delimits = refl;
        reads = rw (view-opened true 3) (unfold read_prefix in rw e);
        ends = omega (arith, length-drop 3 chunk);
      }
      | inr e ↦ record {
        state = opened d s false 0;
        offset = 0;
        rest = chunk;
        probed = probe-plain is_eof chunk (omega arith) e;
        between = opened-IsBetween false 0;
        delimits = refl;
        reads = rw (view-opened false 0) (sym (read_prefix-plain cb (delimiter_of d) s chunk e));
        ends = omega arith;
      }
    ]
  ]

  filled-waiting :
      (pre b rest : Bytes) (offset : ℕ)
      → length b < 3
      → probe_filled cb false cancel (buffering d s pre) b offset rest ≡ waiting (buffering d s b)
  unfolding probe_filled new
  filled-waiting pre b rest offset n = ground arith

  waiting_filled :
      (pre chunk : Bytes)
      → length pre + length chunk < 3
      → probe_buffered cb false cancel (buffering d s pre) (length pre) chunk
        ≡ waiting (buffering d s (pre ++ chunk))
  waiting_filled pre chunk h =
      let n : length (pre ++ chunk) < 3 = omega (arith, length-append pre chunk) in
      probe_buffered_lem false pre chunk (omega arith)
      ∙ filled-waiting pre (take 3 (pre ++ chunk)) _ _ (omega (arith, length-take 3 (pre ++ chunk)))
      ∙ ap (λ b. waiting (buffering d s b)) (take_all 3 (pre ++ chunk) (omega arith))

  -- Less than three bytes of a source that goes on are put aside.
  pub probe-waiting :
      (pre chunk : Bytes)
      → length pre + length chunk < 3
      → probe cb false cancel (buffering d s pre) (length pre) chunk
        ≡ waiting (buffering d s (pre ++ chunk))
  probe-waiting [] chunk h = probe-short false chunk (omega arith) ∙ waiting_filled [] chunk h
  probe-waiting (a ∷ pre) chunk h = probe-next false a pre chunk ∙ waiting_filled (a ∷ pre) chunk h
