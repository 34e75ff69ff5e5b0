-- ===== src/Index/Holds.antt =====
-- What it is for an index to hold a list of spans, and that flushing keeps it.
use data_table_viewer.Prelude.{
  ℕ, ◌+◌, ◌-◌, ◌*◌, ◌^◌, ◌≤◌, ◌<◌, Bool, true, false, if◌then◌else◌, List, [], ◌∷◌, ◌++◌, none,
  some, ◌≡◌, refl, sym, subst, ap, ◌∙◌, inl, inr, Bool-cases, Option-cases, arith, length, take,
  get_elem?, append-nil, length-append, u64, u64-eq_of_lt, dec_lt, is_empty,
}
use data_table_viewer.Index.{
  max_cached_spans, Span, file_failed, FileOps, FileLaws, Index, span_offset, flush_buffer,
}
use data_table_viewer.Index.Lookup.{get_elem?-append_right}

pub span_offset_lem : (n : ℕ) → n < 2 ^ 59 → span_offset n ≡ 64 + n * 16
unfolding span_offset
span_offset_lem n h =
    ap (λ m. u64 (64 + m)) (u64-eq_of_lt (n * 16) (omega arith))
    ∙ u64-eq_of_lt (64 + n * 16) (omega arith)

-- The difference of two 64-bit numbers, where it does not wrap.
pub sub_u64 : (a b : ℕ) → b ≤ a → a < 2 ^ 59 → u64 (a + 2 ^ 64 - b) ≡ a - b
unfolding u64
sub_u64 a b h k = omega arith

module _ {F : Type 0} (ops : FileOps F) (laws : FileLaws ops) where
  -- An index that has not failed and holds exactly `spans`: the first of them in memory, the last
  -- of them in the write buffer, all before those in the file, and those of the window in
  -- `block_cache`.
  pub record Holds (x : Index F) (spans : List Span) : Type 0 where
    pub sound : x.failed ≡ false
    pub counted : x.header.data_record_count ≡ length spans
    pub bounded : length spans < 2 ^ 59
    pub cached : x.ram_cache ≡ take max_cached_spans spans
    pub disk : List Span
    pub split : spans ≡ disk ++ x.write_buffer
    pub on_disk :
        (f : F)
        → x.file ≡ some f
        → (k : ℕ) → k < length disk
        → laws.span_at f (64 + k * 16) ≡ get_elem? spans k
    pub windowed :
        (b : ℕ)
        → x.block_start ≡ some b
        → (i : ℕ) → i < length x.block_cache
        → (b + i < length spans) × (get_elem? x.block_cache i ≡ get_elem? spans (b + i))

  -- The write buffer in its place.
  buffer_written :
      (f : F) (disk buffer : List Span) (k : ℕ)
      → (ops.write_spans f (64 + length disk * 16) buffer).0 ≡ true
      → ((j : ℕ) → j < length disk → laws.span_at f (64 + j * 16) ≡ get_elem? (disk ++ buffer) j)
      → k < length (disk ++ buffer)
      → laws.span_at (ops.write_spans f (64 + length disk * 16) buffer).1 (64 + k * 16)
        ≡ get_elem? (disk ++ buffer) k
  buffer_written f disk buffer k ok old h = elim (dec_lt k (length disk)) [
    | yes p ↦ laws.untouched f (64 + length disk * 16) buffer (64 + k * 16) (omega arith) ∙ old k p
    | no p ↦
        let e : 64 + k * 16 ≡ 64 + length disk * 16 + (k - length disk) * 16 = omega arith in
        ap (laws.span_at (ops.write_spans f (64 + length disk * 16) buffer).1) e
        ∙ laws.written f (64 + length disk * 16) buffer ok (k - length disk)
            (omega (arith, length-append disk buffer))
        ∙ sym (get_elem?-append_right disk buffer k (omega arith))
  ]

  place_lem :
      (x : Index F) (disk : List Span)
      → x.header.data_record_count ≡ length (disk ++ x.write_buffer)
      → length (disk ++ x.write_buffer) < 2 ^ 59
      → span_offset (u64 (x.header.data_record_count + 2 ^ 64 - length x.write_buffer))
        ≡ 64 + length disk * 16
  place_lem x disk e h =
      let le = length-append disk x.write_buffer in
      ap span_offset
        (sub_u64 x.header.data_record_count (length x.write_buffer) (omega arith) (omega arith))
      ∙ span_offset_lem (x.header.data_record_count - length x.write_buffer) (omega arith)
      ∙ omega arith

  -- All of `spans` are in the file.
  abbrev pub Settled : Index F → List Span → Type 0
  Settled x spans =
      (x.write_buffer ≡ [])
      × ((f : F)
          → x.file ≡ some f
          → (k : ℕ) → k < length spans
          → laws.span_at f (64 + k * 16) ≡ get_elem? spans k)

  pub Holds-Settled :
      (x : Index F) (spans : List Span) → Holds x spans → x.write_buffer ≡ [] → Settled x spans
  Holds-Settled x spans v e =
      let whole : v.disk ≡ spans = sym (v.split ∙ ap (λ b. v.disk ++ b) e ∙ append-nil v.disk) in
      (e, λ f h k p. v.on_disk f h k (omega (arith, ap length whole)))

  -- What a flush that succeeds leaves: the same index, its write buffer in the file.
  abbrev pub Flushed : Index F → List Span → Bool × Index F → Type 0
  Flushed x spans r = r.0 ≡ true → Holds r.1 spans × Settled r.1 spans × (r.1.header ≡ x.header)

  flush_buffer-empty :
      (x : Index F) → is_empty x.write_buffer ≡ true → flush_buffer ops x ≡ (true, x)
  unfolding flush_buffer
  flush_buffer-empty x e = rw e refl

  flush_buffer-null :
      (x : Index F)
      → is_empty x.write_buffer ≡ false
      → x.file ≡ none
      → (flush_buffer ops x).0 ≡ false
  unfolding flush_buffer
  flush_buffer-null x e e' = rw (e, e') refl

  flush_buffer-open :
      (x : Index F) (f : F) (place : ℕ)
      → is_empty x.write_buffer ≡ false
      → x.file ≡ some f
      → span_offset (u64 (x.header.data_record_count + 2 ^ 64 - length x.write_buffer)) ≡ place
      → flush_buffer ops x ≡ (
          let r = ops.write_spans f place x.write_buffer in
          if r.0
          then (true, record x { file = some r.1; write_buffer = [] })
          else (false, record x { file = some r.1; error = some file_failed }))
  unfolding flush_buffer
  flush_buffer-open x f place e e' p = rw (e, e', p) refl

  empty_lem : (spans : List Span) → is_empty spans ≡ true → spans ≡ []
  empty_lem [] e = refl
  empty_lem (s ∷ spans) e = absurd (cc e)

  some-inj : (f g : F) → some f ≡ some g → f ≡ g
  some-inj f g e = cc e

  -- The write buffer goes to `g`, which is the file with the buffer written.
  settle :
      (x : Index F) (spans : List Span) (f : F) (v : Holds x spans)
      → x.file ≡ some f
      → (ops.write_spans f (64 + length v.disk * 16) x.write_buffer).0 ≡ true
      → (let g = (ops.write_spans f (64 + length v.disk * 16) x.write_buffer).1 in
          let x' = record x { file = some g; write_buffer = [] } in
          Holds x' spans × Settled x' spans × (x'.header ≡ x.header))
  settle x spans f v e ok =
      let g = (ops.write_spans f (64 + length v.disk * 16) x.write_buffer).1 in
      let there : (k : ℕ) → k < length spans → laws.span_at g (64 + k * 16) ≡ get_elem? spans k =
        λ k h.
          buffer_written f v.disk x.write_buffer k ok
            (λ j p. v.on_disk f e j p ∙ ap (λ s. get_elem? s j) v.split)
            (omega (arith, ap length v.split))
          ∙ ap (λ s. get_elem? s k) (sym v.split) in
      let in_file : (f' : F)
          → some g ≡ some f'
          → (k : ℕ) → k < length spans
          → laws.span_at f' (64 + k * 16) ≡ get_elem? spans k =
        λ f' h k p. ap (λ y. laws.span_at y (64 + k * 16)) (sym (some-inj g f' h)) ∙ there k p in
      (
        record {
          sound = v.sound;
          counted = v.counted;
          bounded = v.bounded;
          cached = v.cached;
          disk = spans;
          split = sym (append-nil spans);
          on_disk = in_file;
          windowed = v.windowed;
        },
        (refl, in_file),
        refl,
      )

  pub flush_buffer-Flushed :
      (x : Index F) (spans : List Span) → Holds x spans → Flushed x spans (flush_buffer ops x)
  flush_buffer-Flushed x spans v = elim (Bool-cases (is_empty x.write_buffer)) [
    | inl e ↦
        subst (Flushed x spans) (sym (flush_buffer-empty x e))
          (λ h. (v, Holds-Settled x spans v (empty_lem x.write_buffer e), refl))
    | inr e ↦ elim (Option-cases x.file) [
      | inl n ↦ λ h. absurd (cc (flush_buffer-null x e n, h))
      | inr (f, o) ↦
          let place =
            place_lem x v.disk (v.counted ∙ ap length v.split)
              (omega (arith, v.bounded, ap length v.split)) in
          subst (Flushed x spans) (sym (flush_buffer-open x f _ e o place))
            (elim (Bool-cases (ops.write_spans f (64 + length v.disk * 16) x.write_buffer).0) [
              | inl ok ↦ rw ok (λ h. settle x spans f v o ok)
              | inr bad ↦ rw bad (λ h. absurd (cc h))
            ])
    ]
  ]
