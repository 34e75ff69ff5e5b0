-- ===== src/Index/Flush.antt =====
-- `init`, `flush` and `markComplete`.
use data_table_viewer.Prelude.{
  ◌+◌, ◌*◌, Bool, true, false, not, List, [], Option, none, some, ◌≡◌, refl, sym, ap, subst, ◌∙◌,
  inl, inr, Bool-cases, Option-cases, arith, if◌then◌else◌,
}
use data_table_viewer.Index.{
  Span, FileOps, FileLaws, Index, file_failed, empty_header, flush_buffer, put_header, init, flush,
  mark_complete,
}
use data_table_viewer.Index.Holds.{Holds, flush_buffer-Flushed}
use data_table_viewer.Index.Append.{Ends}

module _ {F : Type 0} (ops : FileOps F) (laws : FileLaws ops) where
  some-inj : (f g : F) → some f ≡ some g → f ≡ g
  some-inj f g e = cc e

  put_header-null : (x : Index F) → x.file ≡ none → (put_header ops x).0 ≡ false
  unfolding put_header
  put_header-null x e = rw e refl

  put_header-open :
      (x : Index F) (f : F)
      → x.file ≡ some f
      → put_header ops x ≡ (
          let r = ops.write_header f x.header in
          if r.0
          then (true, record x { file = some r.1 })
          else (false, record x { file = some r.1; error = some file_failed }))
  unfolding put_header
  put_header-open x f e = rw e refl

  headed :
      (x : Index F) (spans : List Span) (f : F)
      → Holds ops laws x spans
      → x.file ≡ some f
      → Holds ops laws (record x { file = some (ops.write_header f x.header).1 }) spans
  headed x spans f v e = record {
    sound = v.sound;
    counted = v.counted;
    bounded = v.bounded;
    cached = v.cached;
    disk = v.disk;
    split = v.split;
    on_disk = λ g q k p.
        ap (λ y. laws.span_at y (64 + k * 16)) (sym (some-inj _ g q))
        ∙ laws.header_keeps f x.header (64 + k * 16) (omega arith)
        ∙ v.on_disk f e k p;
    windowed = v.windowed;
  }

  put_header-Holds :
      (x : Index F) (spans : List Span)
      → Holds ops laws x spans
      → (put_header ops x).0 ≡ true
      → Holds ops laws (put_header ops x).1 spans
  put_header-Holds x spans v = elim (Option-cases x.file) [
    | inl e ↦ λ h. absurd (cc (put_header-null x e, h))
    | inr (f, e) ↦
        subst (λ r. r.0 ≡ true → Holds ops laws r.1 spans) (sym (put_header-open x f e))
          (elim (Bool-cases (ops.write_header f x.header).0) [
            | inl ok ↦ rw ok (λ h. headed x spans f v e)
            | inr bad ↦ rw bad (λ h. absurd (cc h))
          ])
  ]

  flush-cases :
      (x : Index F) (ok ok' : Bool)
      → x.failed ≡ false
      → (flush_buffer ops x).0 ≡ ok
      → (put_header ops (flush_buffer ops x).1).0 ≡ ok'
      → flush ops x ≡ (
          if not ok
          then (false, record (flush_buffer ops x).1 { failed = true })
          else if not ok'
          then (false, record (put_header ops (flush_buffer ops x).1).1 { failed = true })
          else (true, (put_header ops (flush_buffer ops x).1).1))
  unfolding flush
  flush-cases x ok ok' e p q = simp (e, p, q) refl

  pub flush-Ends :
      (x : Index F) (spans : List Span)
      → Holds ops laws x spans
      → Ends ops laws (flush ops x) true spans
  flush-Ends x spans v =
      let r = flush_buffer ops x in
      elim (Bool-cases r.0) [
        | inr bad ↦
            subst (λ y. Ends ops laws y true spans) (sym (flush-cases x false _ v.sound bad refl))
              (inl (refl, refl))
        | inl ok ↦
            let (v', _, _) = flush_buffer-Flushed ops laws x spans v ok in
            elim (Bool-cases (put_header ops r.1).0) [
              | inr bad ↦
                  subst (λ y. Ends ops laws y true spans)
                    (sym (flush-cases x true false v.sound ok bad)) (inl (refl, refl))
              | inl ok' ↦
                  subst (λ y. Ends ops laws y true spans)
                    (sym (flush-cases x true true v.sound ok ok'))
                    (inr (refl, put_header-Holds r.1 spans v' ok'))
            ]
      ]

  abbrev marked : Index F → Index F
  marked x = record x { header = record x.header { is_complete = true } }

  marked-Holds :
      (x : Index F) (spans : List Span) → Holds ops laws x spans → Holds ops laws (marked x) spans
  marked-Holds x spans v = record {
    sound = v.sound;
    counted = v.counted;
    bounded = v.bounded;
    cached = v.cached;
    disk = v.disk;
    split = v.split;
    on_disk = v.on_disk;
    windowed = v.windowed;
  }

  mark_complete-cases :
      (x : Index F) (ok : Bool)
      → x.failed ≡ false
      → (flush ops (marked x)).0 ≡ ok
      → mark_complete ops x ≡ (
          let r = flush ops (marked x) in
          if ok
          then (true, r.1)
          else (false, record r.1 { header = record r.1.header { is_complete = false } }))
  unfolding mark_complete
  mark_complete-cases x ok e e' =
      let r = flush ops (marked x) in
      let good : Bool × Index F = (true, r.1) in
      let bad : Bool × Index F =
        (false, record r.1 { header = record r.1.header { is_complete = false } }) in
      ap (λ b. if b then (false, x) else if r.0 then good else bad) e
      ∙ ap (λ b. if b then good else bad) e'

  pub mark_complete-Ends :
      (x : Index F) (spans : List Span)
      → Holds ops laws x spans
      → Ends ops laws (mark_complete ops x) true spans
  mark_complete-Ends x spans v = elim (flush-Ends (marked x) spans (marked-Holds x spans v)) [
    | inl (bad, f) ↦
        subst (λ y. Ends ops laws y true spans) (sym (mark_complete-cases x false v.sound bad))
          (inl (refl, f))
    | inr (ok, v') ↦
        subst (λ y. Ends ops laws y true spans) (sym (mark_complete-cases x true v.sound ok))
          (inr (refl, v'))
  ]

  abbrev opened : Option F → Index F → Index F
  opened created x = record {
    header = empty_header;
    file = created;
    ram_cache = [];
    write_buffer = [];
    block_cache = [];
    block_start = none;
    failed = false;
    error = x.error;
  }

  opened-Holds : (created : Option F) (x : Index F) → Holds ops laws (opened created x) []
  opened-Holds created x = record {
    sound = refl;
    counted = refl;
    bounded = omega arith;
    cached = refl;
    disk = [];
    split = refl;
    on_disk = λ f e k p. absurd (omega arith);
    windowed = λ b e i p. absurd (omega arith);
  }

  pub init-Holds :
      (created : Option F) (x : Index F)
      → (init ops created x).0 ≡ true
      → Holds ops laws (init ops created x).1 []
  unfolding init
  init-Holds none x e = absurd (cc e)
  init-Holds (some f) x e = put_header-Holds (opened (some f) x) [] (opened-Holds (some f) x) e
