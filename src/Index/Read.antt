-- ===== src/Index/Read.antt =====
-- `readSpan` on an index that holds a list of spans.
use data_table_viewer.Prelude.{
  ℕ, ◌+◌, ◌-◌, ◌*◌, ◌≤◌, ◌<◌, min, Bool, true, false, List, Option, none, some, ◌≡◌, refl, sym, ap,
  subst, ◌∙◌, inl, inr, ◌⊎◌, Bool-cases, Option-cases, arith, length, take, get_elem?, length-take,
  get_elem?-take, ltb, leb, ltb→lt, leb→le, ◌&&◌, if◌then◌else◌,
}
use data_table_viewer.Prelude.Int.{ℤ, pos, negsuc}
use data_table_viewer.Index.{
  max_cached_spans, block_read_size, Span, FileOps, FileLaws, Index, span_offset, flush_buffer,
  read_window, take_block, read_file, in_window, window_at, read_span,
}
use data_table_viewer.Index.Lookup.{get_elem?-out}
use data_table_viewer.Index.Holds.{Holds, Settled, flush_buffer-Flushed, span_offset_lem}

-- The span at an ordinal, which may be negative.
abbrev pub lookup : ℤ → List Span → Option Span
lookup (pos n) spans = get_elem? spans n
lookup (negsuc n) spans = none

both : (a b : Bool) → a && b ≡ true → (a ≡ true) × (b ≡ true)
both true true e = (refl, refl)
both true false e = absurd (cc e)
both false b e = absurd (cc e)

module _ {F : Type 0} (ops : FileOps F) (laws : FileLaws ops) where
  -- What a read may do: fail for good, or find the span.
  abbrev pub Reads : Option Span × Index F → Option Span → List Span → Type 0
  Reads r answer spans =
      ((r.0 ≡ none) × (r.1.failed ≡ true)) ⊎ ((r.0 ≡ answer) × Holds ops laws r.1 spans)

  read_window-open :
      (n : ℕ) (x : Index F) (f : F) (place count : ℕ)
      → x.file ≡ some f
      → span_offset n ≡ place
      → min block_read_size (x.header.data_record_count - n) ≡ count
      → read_window ops n x ≡ take_block n x (ops.read_block f place count)
  unfolding read_window
  read_window-open n x f place count e p c = rw (e, p, c) refl

  read_window-null :
      (n : ℕ) (x : Index F)
      → x.file ≡ none
      → ((read_window ops n x).0 ≡ none) × ((read_window ops n x).1.failed ≡ true)
  unfolding read_window
  read_window-null n x e = rw e (refl, refl)

  some-inj : {A : Type 0} (f g : A) → some f ≡ some g → f ≡ g
  some-inj f g e = cc e

  -- The window that has been read.
  window_read :
      (n count : ℕ) (x : Index F) (spans : List Span) (f : F) (block : List Span)
      → Holds ops laws x spans
      → Settled ops laws x spans
      → x.file ≡ some f
      → n + count ≤ length spans
      → 1 ≤ count
      → (ops.read_block f (64 + n * 16) count).0 ≡ some block
      → Reads
          (
            get_elem? block 0,
            record x {
              file = some (ops.read_block f (64 + n * 16) count).1;
              block_cache = block;
              block_start = some n;
            },
          )
          (get_elem? spans n)
          spans
  window_read n count x spans f block v (empty, there) e h one r =
      let (l, right) = laws.read_right f (64 + n * 16) count block r in
      let same : (i : ℕ) → i < count → get_elem? block i ≡ get_elem? spans (n + i) =
        λ i p. right i p ∙ ap (laws.span_at f) (omega arith) ∙ there f e (n + i) (omega arith) in
      inr (
        same 0 one ∙ ap (get_elem? spans) (omega arith),
        record {
          sound = v.sound;
          counted = v.counted;
          bounded = v.bounded;
          cached = v.cached;
          disk = v.disk;
          split = v.split;
          on_disk = λ g q k p.
              ap (λ y. laws.span_at y (64 + k * 16)) (sym (some-inj _ g q))
              ∙ laws.read_keeps f (64 + n * 16) count (64 + k * 16)
              ∙ v.on_disk f e k p;
          windowed = λ b q i p.
              let m : n ≡ b = some-inj n b q in
              (omega arith, same i (omega arith) ∙ ap (get_elem? spans) (omega arith));
        },
      )

  block_taken :
      (n count : ℕ) (x : Index F) (spans : List Span) (f : F) (r : Option (List Span) × F)
      → Holds ops laws x spans
      → Settled ops laws x spans
      → x.file ≡ some f
      → n + count ≤ length spans
      → 1 ≤ count
      → ops.read_block f (64 + n * 16) count ≡ r
      → Reads (take_block n x r) (get_elem? spans n) spans
  unfolding take_block
  block_taken n count x spans f (none, g) v s e h one q = inl (refl, refl)
  block_taken n count x spans f (some block, g) v s e h one q =
      subst
        (λ y.
          Reads
            (
              get_elem? block 0,
              record x { file = some y; block_cache = block; block_start = some n },
            )
            (get_elem? spans n) spans)
        (ap (λ y. y.1) q) (window_read n count x spans f block v s e h one (ap (λ y. y.0) q))

  read_window-Reads :
      (n : ℕ) (x : Index F) (spans : List Span)
      → Holds ops laws x spans
      → Settled ops laws x spans
      → n < length spans
      → Reads (read_window ops n x) (get_elem? spans n) spans
  read_window-Reads n x spans v s h = elim (Option-cases x.file) [
    | inl e ↦ inl (read_window-null n x e)
    | inr (f, e) ↦
        let count = min block_read_size (length spans - n) in
        subst (λ y. Reads y (get_elem? spans n) spans)
          (sym (
            read_window-open n x f _ count e (span_offset_lem n (omega (arith, v.bounded)))
              (ap (λ c. min block_read_size (c - n)) v.counted)))
          (block_taken n count x spans f _ v s e (omega arith) (omega arith) refl)
  ]

  read_file-bad :
      (n : ℕ) (x : Index F)
      → (flush_buffer ops x).0 ≡ false
      → ((read_file ops n x).0 ≡ none) × ((read_file ops n x).1.failed ≡ true)
  unfolding read_file
  read_file-bad n x e = rw e (refl, refl)

  read_file-good :
      (n : ℕ) (x : Index F)
      → (flush_buffer ops x).0 ≡ true
      → read_file ops n x ≡ read_window ops n (flush_buffer ops x).1
  unfolding read_file
  read_file-good n x e = rw e refl

  read_file-Reads :
      (n : ℕ) (x : Index F) (spans : List Span)
      → Holds ops laws x spans
      → n < length spans
      → Reads (read_file ops n x) (get_elem? spans n) spans
  read_file-Reads n x spans v h = elim (Bool-cases (flush_buffer ops x).0) [
    | inr bad ↦ inl (read_file-bad n x bad)
    | inl ok ↦
        let (v', s, e) = flush_buffer-Flushed ops laws x spans v ok in
        subst (λ y. Reads y (get_elem? spans n) spans) (sym (read_file-good n x ok))
          (read_window-Reads n (flush_buffer ops x).1 spans v' s h)
  ]

  read_span-live :
      (n : ℕ) (x : Index F)
      → x.failed ≡ false
      → leb x.header.data_record_count n ≡ false
      → read_span ops (pos n) x ≡ (
          if ltb n (length x.ram_cache)
          then (get_elem? x.ram_cache n, x)
          else if in_window n x
          then (window_at n x, x)
          else read_file ops n x)
  unfolding read_span
  read_span-live n x e e' = rw (e, e') refl

  read_span-out :
      (n : ℕ) (x : Index F)
      → x.failed ≡ false
      → leb x.header.data_record_count n ≡ true
      → read_span ops (pos n) x ≡ (none, x)
  unfolding read_span
  read_span-out n x e e' = rw (e, e') refl

  window_lem :
      (n : ℕ) (x : Index F) (spans : List Span)
      → Holds ops laws x spans
      → in_window n x ≡ true
      → window_at n x ≡ get_elem? spans n
  unfolding in_window window_at
  window_lem n x spans v e = elim (Option-cases x.block_start) [
    | inl h ↦ let e' : false ≡ true = rw h at e in absurd (cc e')
    | inr (b, h) ↦
        let e' : leb b n && ltb (n - b) (length x.block_cache) ≡ true = rw h at e in
        let (p, q) = both _ _ e' in
        let le = leb→le b n p in
        let (_, w) = v.windowed b h (n - b) (ltb→lt _ _ q) in
        rw h (w ∙ ap (get_elem? spans) (omega arith))
  ]

  read_pos-Reads :
      (n : ℕ) (x : Index F) (spans : List Span)
      → Holds ops laws x spans
      → n < length spans
      → Reads
          (if ltb n (length x.ram_cache)
            then (get_elem? x.ram_cache n, x)
            else if in_window n x
            then (window_at n x, x)
            else read_file ops n x)
          (get_elem? spans n)
          spans
  read_pos-Reads n x spans v h = elim (Bool-cases (ltb n (length x.ram_cache))) [
    | inl e ↦
        let l : n < length (take max_cached_spans spans) =
          subst (λ c. n < length c) v.cached (ltb→lt _ _ e) in
        let k : n < max_cached_spans = omega (arith, length-take max_cached_spans spans) in
        rw e (inr (ap (λ c. get_elem? c n) v.cached ∙ get_elem?-take spans max_cached_spans n k, v))
    | inr e ↦ elim (Bool-cases (in_window n x)) [
      | inl w ↦ rw (e, w) (inr (window_lem n x spans v w, v))
      | inr w ↦ rw (e, w) (read_file-Reads n x spans v h)
    ]
  ]

  -- An index that holds `spans` finds the span at any ordinal, or fails for good.
  pub read_span-Reads :
      (ordinal : ℤ) (x : Index F) (spans : List Span)
      → Holds ops laws x spans
      → Reads (read_span ops ordinal x) (lookup ordinal spans) spans
  read_span-Reads (negsuc n) x spans v = unfold read_span in inr (refl, v)
  read_span-Reads (pos n) x spans v = elim (Bool-cases (leb x.header.data_record_count n)) [
    | inl e ↦
        subst (λ r. Reads r (get_elem? spans n) spans) (sym (read_span-out n x v.sound e))
          (inr (sym (get_elem?-out spans n (omega (arith, leb→le _ _ e, v.counted))), v))
    | inr e ↦
        subst (λ r. Reads r (get_elem? spans n) spans) (sym (read_span-live n x v.sound e))
          (read_pos-Reads n x spans v (ground (arith, v.counted)))
  ]
