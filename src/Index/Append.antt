-- ===== src/Index/Append.antt =====
-- `appendSpan`, `flush` and `markComplete` on an index that holds a list of spans.
use data_table_viewer.Prelude.{
  ◌+◌, ◌^◌, ◌<◌, Bool, true, false, List, [], ◌∷◌, ◌++◌, ◌≡◌, refl, sym, ap, subst, ◌∙◌, inl, inr,
  ◌⊎◌, Bool-cases, arith, length, take, append_assoc, length-append, length-take,
  get_elem?-append_left, u64, u64-eq_of_lt, dec_lt, ltb, leb, if◌then◌else◌,
}
use data_table_viewer.Index.{
  max_cached_spans, write_buffer_size, Span, FileOps, FileLaws, Index, flush_buffer, add_span,
}
use data_table_viewer.Index.Lookup.{take-append_short, take-append_long, take-all}
use data_table_viewer.Index.Holds.{Holds, flush_buffer-Flushed}

-- The spans in memory, with one more.
abbrev remember : Span → List Span → List Span
remember span cache = if ltb (length cache) max_cached_spans then cache ++ span ∷ [] else cache

remember-take :
    (span : Span) (spans : List Span)
    → remember span (take max_cached_spans spans) ≡ take max_cached_spans (spans ++ span ∷ [])
remember-take span spans = elim (dec_lt (length spans) max_cached_spans) [
  | yes p ↦
      rw
        (
          take-all max_cached_spans spans (omega arith),
          take-append_short max_cached_spans spans span p,
        )
        (ground arith)
  | no p ↦
      rw (take-append_long max_cached_spans spans span (omega arith))
        (ground (arith, length-take max_cached_spans spans))
]

module _ {F : Type 0} (ops : FileOps F) (laws : FileLaws ops) where
  -- The index as `appendSpan` has it before it flushes.
  abbrev grown : Span → Index F → Index F
  grown span x = record x {
    ram_cache = remember span x.ram_cache;
    write_buffer = x.write_buffer ++ span ∷ [];
    header = record x.header { data_record_count = u64 (x.header.data_record_count + 1) };
  }

  grown-Holds :
      (span : Span) (x : Index F) (spans : List Span)
      → Holds ops laws x spans
      → length spans + 1 < 2 ^ 59
      → Holds ops laws (grown span x) (spans ++ span ∷ [])
  grown-Holds span x spans v h =
      let l : length (spans ++ span ∷ []) ≡ length spans + 1 = length-append spans (span ∷ []) in
      record {
        sound = v.sound;
        counted =
            ap (λ n. u64 (n + 1)) v.counted ∙ u64-eq_of_lt (length spans + 1) (omega arith) ∙ sym l;
        bounded = omega arith;
        cached = ap (remember span) v.cached ∙ remember-take span spans;
        disk = v.disk;
        split = ap (λ s. s ++ span ∷ []) v.split ∙ append_assoc v.disk x.write_buffer (span ∷ []);
        on_disk = λ f e k p.
            let q : k < length spans =
              omega (arith, length-append v.disk x.write_buffer, ap length v.split) in
            v.on_disk f e k p ∙ sym (get_elem?-append_left spans (span ∷ []) k q);
        windowed = λ b e i p.
            let (q, w) = v.windowed b e i p in
            (omega arith, w ∙ sym (get_elem?-append_left spans (span ∷ []) (b + i) q));
      }

  -- What an operation with a Boolean result may do: fail for good, or do its work.
  abbrev pub Ends : Bool × Index F → Bool → List Span → Type 0
  Ends r answer spans =
      ((r.0 ≡ false) × (r.1.failed ≡ true)) ⊎ ((r.0 ≡ answer) × Holds ops laws r.1 spans)

  add_span-kept :
      (span : Span) (x : Index F)
      → leb write_buffer_size (length (grown span x).write_buffer) ≡ false
      → add_span ops span x ≡ (true, grown span x)
  unfolding add_span
  add_span-kept span x e = rw e refl

  add_span-flushed :
      (span : Span) (x : Index F) (ok : Bool)
      → leb write_buffer_size (length (grown span x).write_buffer) ≡ true
      → (flush_buffer ops (grown span x)).0 ≡ ok
      → add_span ops span x ≡ (
          let r = flush_buffer ops (grown span x) in
          if ok then (true, r.1) else (false, record r.1 { failed = true }))
  unfolding add_span
  add_span-flushed span x ok e e' = rw (e, e') refl

  pub add_span-Ends :
      (span : Span) (x : Index F) (spans : List Span)
      → Holds ops laws x spans
      → length spans + 1 < 2 ^ 59
      → Ends (add_span ops span x) true (spans ++ span ∷ [])
  add_span-Ends span x spans v h =
      let v' = grown-Holds span x spans v h in
      elim (Bool-cases (leb write_buffer_size (length (grown span x).write_buffer))) [
        | inr e ↦
            subst (λ r. Ends r true (spans ++ span ∷ [])) (sym (add_span-kept span x e))
              (inr (refl, v'))
        | inl e ↦ elim (Bool-cases (flush_buffer ops (grown span x)).0) [
          | inr bad ↦
              subst (λ r. Ends r true (spans ++ span ∷ []))
                (sym (add_span-flushed span x false e bad)) (inl (refl, refl))
          | inl ok ↦
              subst (λ r. Ends r true (spans ++ span ∷ []))
                (sym (add_span-flushed span x true e ok))
                (inr (refl, (flush_buffer-Flushed ops laws (grown span x) _ v' ok).0))
        ]
      ]
