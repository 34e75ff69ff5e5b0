-- ===== src/Scanner/Records.antt =====
-- A source as a list of records, and the machine as a pass over that list.
use data_table_viewer.Prelude.{
  ℕ, ◌+◌, ◌^◌, ◌≤◌, ◌<◌, Bool, true, false, ◌&&◌, ◌||◌, ◌⊎◌, List, [], ◌∷◌, ◌++◌, Option, none,
  some, ◌≡◌, refl, sym, ap, subst, ◌∙◌, ◌==◌, if◌then◌else◌, length, length-append, Bytes, u64,
  u64-eq_of_lt, arith, Bool-cases, inl, inr,
}
use data_table_viewer.Scanner.{Callbacks}
use data_table_viewer.Scanner.Machine.{
  Mode, plain, quoted, quote_seen, cr_seen, Machine, field, record_end, IsStream, end_row,
  plain_byte, quoted_byte, step_in, run, close, is_quoted,
}
use data_table_viewer.Scanner.Local.{
  Local, fresh_local, local_plain, local_step, cells_fold, spread, Spread, step-Spread, Counted,
  Kept, local_step-Kept,
}

-- A record: where it starts, its bytes without the line break, and what the machine has of its
-- cells behind the last of them.
pub record SourceRecord : Type 0 where
  pub start : ℕ
  pub body : Bytes
  pub local : Local

abbrev pub record_of : ℕ → Bytes → Local → SourceRecord
record_of start body l = record { start = start; body = body; local = l }

-- The records of the bytes `rest`, the first of which starts at `start` and has the bytes `body`
-- already. A CR with an LF behind it is one line break.
unfoldable pub records_from : ℕ → ℕ → Bytes → Local → Bytes → List SourceRecord
records_from d start body l [] =
    if l.saw || is_quoted l.mode then record_of start body l ∷ [] else []
records_from d start body l (c ∷ []) = elim (local_step l.mode d l c) [
  | none ↦ record_of start body l ∷ []
  | some l' ↦ records_from d start (body ++ c ∷ []) l' []
]
records_from d start body l (c ∷ e ∷ rest) =
    let o = start + length body in
    let skipped = records_from d (o + 2) [] fresh_local rest in
    let next = records_from d (o + 1) [] fresh_local (e ∷ rest) in
    elim (local_step l.mode d l c) [
      | none ↦ record_of start body l ∷ (if c == b'\r' && e == b'\n' then skipped else next)
      | some l' ↦ records_from d start (body ++ c ∷ []) l' (e ∷ rest)
    ]

abbrev pub is_inside : Mode → Bool
is_inside cr_seen = false
is_inside _ = true

-- No CR is pending inside a record, a record that shows nothing is fresh, and its cells are counted.
pub record IsLive (l : Local) : Type 0 where
  pub no_cr : is_inside l.mode ≡ true
  pub shows : (l ≡ fresh_local) ⊎ (l.saw ≡ true)
  pub counts : Counted l

pub fresh-IsLive : IsLive fresh_local
fresh-IsLive = record { no_cr = refl; shows = inl refl; counts = refl }

-- A step inside a record goes on with one that shows something.
abbrev Shows : Option Local → Type 0
Shows none = Unit
Shows (some l) = (is_inside l.mode ≡ true) × (l.saw ≡ true)

Shows-if : (t : Bool) (a b : Option Local) → Shows a → Shows b → Shows (if t then a else b)
Shows-if true a b p q = p
Shows-if false a b p q = q

plain-Shows : (d : ℕ) (l : Local) (c : ℕ) → l.mode ≡ plain → Shows (local_plain d l c)
unfolding local_plain
plain-Shows d l c e =
    let i : is_inside l.mode ≡ true = ap is_inside e in
    Shows-if (c == b'"') _ _ (refl, refl)
      (Shows-if (c == d) _ _ (i, refl) (Shows-if (c == b'\r' || c == b'\n') _ _ tt (i, refl)))

step-Shows :
    (mode : Mode) (d : ℕ) (l : Local) (c : ℕ)
    → l.mode ≡ mode
    → (mode ≡ plain) ⊎ (l.saw ≡ true)
    → Shows (local_step mode d l c)
unfolding local_step
step-Shows plain d l c e h = plain-Shows d l c e
step-Shows quoted d l c e (inl p) = absurd (cc p)
step-Shows quoted d l c e (inr h) = Shows-if (c == b'"') _ _ (refl, h) (ap is_inside e, h)
step-Shows quote_seen d l c e (inl p) = absurd (cc p)
step-Shows quote_seen d l c e (inr h) =
    Shows-if (c == b'"') _ _ (refl, h) (plain-Shows d (record l { mode = plain }) c refl)
step-Shows cr_seen d l c e h = tt

shows_of : (l : Local) → IsLive l → (l.mode ≡ plain) ⊎ (l.saw ≡ true)
shows_of l h = elim h.shows [ inl e ↦ inl (ap (λ x. x.mode) e) | inr e ↦ inr e ]

step-IsLive :
    (d : ℕ) (l l' : Local) (c : ℕ)
    → IsLive l
    → l.col + 1 < 2 ^ 64
    → local_step l.mode d l c ≡ some l'
    → IsLive l' × (l'.col ≤ l.col + 1)
step-IsLive d l l' c h k e =
    let (i, s) : Shows (some l') = subst Shows e (step-Shows l.mode d l c refl (shows_of l h)) in
    let (w, m) : Kept l.col (some l') =
      subst (Kept l.col) e (local_step-Kept l.mode d l c h.counts k) in
    (record { no_cr = i; shows = inr s; counts = w }, m)

if_false : {A : Type 0} (t : Bool) (a b : A) → t ≡ false → (if t then a else b) ≡ b
if_false true a b e = absurd (cc e)
if_false false a b e = refl

module _ {S : Type 0} (cb : Callbacks S) where
  -- The record as its cells, one by one, and the last one ended.
  unfoldable pub row_fold : Local → S → S
  row_fold l s = field cb l.col [] true (field cb l.col l.cell false (cells_fold cb 0 l.row s))

  -- The records one after another, from ordinal `n` on.
  unfoldable pub records_fold : ℕ → S → List SourceRecord → S
  records_fold n s [] = s
  records_fold n s (r ∷ records) =
      records_fold (u64 (n + 1))
        (record_end cb n r.start (r.start + length r.body) (row_fold r.local s)) records

module _ {S : Type 0} (cb : Callbacks S) (stream : IsStream cb) (d : ℕ) where
  abbrev at_start : ℕ → ℕ → S → Machine S
  at_start n a s = record { mode = plain; ordinal = n; start = a; saw = false; col = 0; out = s }

  abbrev behind_cr : ℕ → S → Machine S
  behind_cr n s = record { mode = cr_seen; ordinal = n; start = 0; saw = false; col = 0; out = s }

  pub spread-fresh : (n a : ℕ) (s : S) → spread cb stream d n a s fresh_local ≡ at_start n a s
  unfolding cells_fold
  spread-fresh n a s = ap (λ x. record (at_start n a s) { out = x }) (stream.field-nil 0 s)

  -- The record ends before a byte, which is the machine's next one.
  abbrev Broken : ℕ → ℕ → ℕ → S → Machine S → Type 0
  Broken n o c s m =
      (((c == b'\r') ≡ true) × (m ≡ behind_cr n s))
      ⊎ (((c == b'\r') ≡ false) × (m ≡ at_start n (u64 (o + 1)) s))

  abbrev Ends : ℕ → ℕ → S → Local → ℕ → ℕ → Machine S → Type 0
  Ends n a s l o c m = Broken (u64 (n + 1)) o c (record_end cb n a (u64 o) (row_fold cb l s)) m

  plain-Ends :
      (n a : ℕ) (s : S) (l : Local) (o c : ℕ)
      → l.mode ≡ plain
      → local_plain d l c ≡ none
      → Ends n a s l o c (plain_byte cb d (spread cb stream d n a s l) o c)
  unfolding local_plain plain_byte end_row row_fold
  plain-Ends n a s l o c p e = elim (Bool-cases (c == b'"')) [
    | inl q ↦ absurd (ground arith)
    | inr q ↦ elim (Bool-cases (c == d)) [
      | inl f ↦ absurd (ground arith)
      | inr f ↦ elim (Bool-cases (c == b'\r')) [
        | inl r ↦ inl (r, simp (q, f, r) refl)
        | inr r ↦ elim (Bool-cases (c == b'\n')) [
          | inl m ↦ inr (r, simp (q, f, r, m, p) refl)
          | inr m ↦ absurd (ground arith)
        ]
      ]
    ]
  ]

  step-Ends :
      (mode : Mode) (n a : ℕ) (s : S) (l : Local) (o c : ℕ)
      → l.mode ≡ mode
      → is_inside mode ≡ true
      → local_step mode d l c ≡ none
      → Ends n a s l o c (step_in cb mode d (spread cb stream d n a s l) o c)
  unfolding step_in local_step quoted_byte row_fold
  step-Ends plain n a s l o c p i e = plain-Ends n a s l o c p e
  step-Ends quoted n a s l o c p i e = absurd (ground arith)
  step-Ends quote_seen n a s l o c p i e = elim (Bool-cases (c == b'"')) [
    | inl q ↦ absurd (ground arith)
    | inr q ↦
        let e' : local_plain d (record l { mode = plain }) c ≡ none = ground arith in
        let m = plain_byte cb d (spread cb stream d n a s (record l { mode = plain })) o c in
        subst (Ends n a s l o c) (sym (if_false _ _ m q))
          (plain-Ends n a s (record l { mode = plain }) o c refl e')
  ]
  step-Ends cr_seen n a s l o c p i e = absurd (cc i)

  -- A CR that ended a record takes an LF behind it, and lets any other byte begin the next one.
  behind_cr_lem :
      (n : ℕ) (s : S) (o e : ℕ) (rest : Bytes)
      → run cb d (behind_cr n s) o (e ∷ rest) ≡ (
          if e == b'\n'
          then run cb d (at_start n (u64 (o + 1)) s) (o + 1) rest
          else run cb d (at_start n (u64 o) s) o (e ∷ rest))
  unfolding run step_in
  behind_cr_lem n s o e rest = elim (Bool-cases (e == b'\n')) [
    | inl q ↦ simp q refl
    | inr q ↦ simp q refl
  ]

  -- The end of the source.
  close-nil :
      (n a : ℕ) (s : S) (l : Local) (start : ℕ) (body : Bytes)
      → IsLive l
      → a ≡ start
      → start + length body < 2 ^ 64
      → close cb (spread cb stream d n a s l) (start + length body)
        ≡ records_fold cb n s (records_from d start body l [])
  unfolding close end_row records_fold records_from row_fold cells_fold
  close-nil n a s l start body h a' k = elim h.shows [
    | inl f ↦
        subst
          (λ x.
            close cb (spread cb stream d n a s x) (start + length body)
            ≡ records_fold cb n s (records_from d start body x []))
          (sym f) (stream.field-nil 0 s)
    | inr f ↦ simp (f, a', u64-eq_of_lt (start + length body) k) refl
  ]

  -- Behind the line break.
  break_lem :
      (n : ℕ) (s : S) (total o c e : ℕ) (rest : Bytes) (m : Machine S)
      (skipped next : List SourceRecord)
      → Broken n o c s m
      → close cb (run cb d (at_start n (u64 (o + 1 + 1)) s) (o + 1 + 1) rest) total
        ≡ records_fold cb n s skipped
      → close cb (run cb d (at_start n (u64 (o + 1)) s) (o + 1) (e ∷ rest)) total
        ≡ records_fold cb n s next
      → close cb (run cb d m (o + 1) (e ∷ rest)) total
        ≡ records_fold cb n s (if c == b'\r' && e == b'\n' then skipped else next)
  break_lem n s total o c e rest m skipped next (inl (r, q)) h k =
      ap (λ x. close cb (run cb d x (o + 1) (e ∷ rest)) total) q
      ∙ ap (λ x. close cb x total) (behind_cr_lem n s (o + 1) e rest)
      ∙ elim (Bool-cases (e == b'\n')) [ inl f ↦ simp (r, f) h | inr f ↦ simp (r, f) k ]
  break_lem n s total o c e rest m skipped next (inr (r, q)) h k =
      ap (λ x. close cb (run cb d x (o + 1) (e ∷ rest)) total) q ∙ simp r k

  close-Broken :
      (n : ℕ) (s : S) (total o c : ℕ) (m : Machine S) → Broken n o c s m → close cb m total ≡ s
  unfolding close
  close-Broken n s total o c m (inl (r, q)) = ap (λ x. close cb x total) q
  close-Broken n s total o c m (inr (r, q)) = ap (λ x. close cb x total) q

  -- A record begins at `start`.
  restart :
      (n : ℕ) (s : S) (total o start : ℕ) (rest : Bytes) (z : S)
      → o ≡ start
      → o < 2 ^ 64
      → close cb (run cb d (spread cb stream d n start s fresh_local) o rest) total ≡ z
      → close cb (run cb d (at_start n (u64 o) s) o rest) total ≡ z
  restart n s total o start rest z e k h =
      ap (λ x. close cb (run cb d x o rest) total)
        (ap (λ a. at_start n a s) (u64-eq_of_lt o k ∙ e) ∙ sym (spread-fresh n start s))
      ∙ h

  -- One step inside the record.
  inside-step :
      (n a : ℕ) (s : S) (l l' : Local) (o c : ℕ)
      → Counted l
      → local_step l.mode d l c ≡ some l'
      → step_in cb l.mode d (spread cb stream d n a s l) o c ≡ spread cb stream d n a s l'
  inside-step n a s l l' o c h e =
      subst (Spread cb stream d n a s (step_in cb l.mode d (spread cb stream d n a s l) o c)) e
        (step-Spread cb stream d n a l.mode l s o c h)

  step-Broken :
      (n a : ℕ) (s : S) (l : Local) (o c x : ℕ)
      → IsLive l
      → u64 o ≡ x
      → local_step l.mode d l c ≡ none
      → Broken
          (u64 (n + 1))
          o
          c
          (record_end cb n a x (row_fold cb l s))
          (step_in cb l.mode d (spread cb stream d n a s l) o c)
  step-Broken n a s l o c x h w e =
      subst
        (λ y.
          Broken (u64 (n + 1)) o c (record_end cb n a y (row_fold cb l s))
            (step_in cb l.mode d (spread cb stream d n a s l) o c))
        w (step-Ends l.mode n a s l o c refl h.no_cr e)

  -- A byte inside the record, or one that ends it, with what follows from either.
  byte_lem :
      (start : ℕ) (body : Bytes) (n : ℕ) (s : S) (l : Local) (o c total : ℕ) (tail : Bytes)
      (ended : List SourceRecord) (later : Local → List SourceRecord)
      → IsLive l
      → o ≡ start + length body
      → o + 1 < 2 ^ 64
      → l.col + 1 < 2 ^ 64
      → (let s' = record_end cb n start (start + length body) (row_fold cb l s) in
          (m : Machine S)
          → Broken (u64 (n + 1)) o c s' m
          → close cb (run cb d m (o + 1) tail) total ≡ records_fold cb (u64 (n + 1)) s' ended)
      → ((l' : Local)
          → IsLive l'
          → l'.col ≤ l.col + 1
          → close cb (run cb d (spread cb stream d n start s l') (o + 1) tail) total
            ≡ records_fold cb n s (later l'))
      → (r : Option Local) → local_step l.mode d l c ≡ r
      → close cb
          (run cb d (step_in cb l.mode d (spread cb stream d n start s l) o c) (o + 1) tail)
          total
        ≡ records_fold cb n s
            (elim r [ none ↦ record_of start body l ∷ ended | some l' ↦ later l' ])
  unfolding records_fold
  byte_lem start body n s l o c total tail ended later h e k w broken inside none q =
      broken _
        (step-Broken n start s l o c (start + length body) h (u64-eq_of_lt o (omega arith) ∙ e) q)
  byte_lem start body n s l o c total tail ended later h e k w broken inside (some l') q =
      let (h', w') = step-IsLive d l l' c h w q in
      ap (λ m. close cb (run cb d m (o + 1) tail) total) (inside-step n start s l l' o c h.counts q)
      ∙ inside l' h' w'

  -- The machine inside a record of the source makes of it what its records make, one by one.
  pub run-records :
      (rest : Bytes) (start : ℕ) (body : Bytes) (n : ℕ) (s : S) (l : Local) (o total : ℕ)
      → IsLive l
      → o ≡ start + length body
      → total ≡ o + length rest
      → total < 2 ^ 64
      → l.col + length rest < 2 ^ 64
      → close cb (run cb d (spread cb stream d n start s l) o rest) total
        ≡ records_fold cb n s (records_from d start body l rest)
  unfolding run records_from records_fold
  run-records [] start body n s l o total h e t k w =
      let t' : total ≡ start + length body = omega arith in
      ap (close cb (spread cb stream d n start s l)) t'
      ∙ close-nil n start s l start body h refl (omega arith)
  run-records (c ∷ []) start body n s l o total h e t k w =
      byte_lem start body n s l o c total [] [] (λ l'. records_from d start (body ++ c ∷ []) l' [])
        h e (omega arith) (omega arith) (λ m b. close-Broken (u64 (n + 1)) _ total o c m b)
        (λ l' h' w'.
          run-records [] start (body ++ c ∷ []) n s l' (o + 1) total h'
            (omega (arith, length-append body (c ∷ []))) (omega arith) k (omega arith))
        (local_step l.mode d l c) refl
  run-records (c ∷ f ∷ rest) start body n s l o total h e t k w =
      let after = start + length body in
      let n' = u64 (n + 1) in
      let s' = record_end cb n start after (row_fold cb l s) in
      let skipped =
        run-records rest (after + 2) [] n' s' fresh_local (o + 1 + 1) total fresh-IsLive
          (omega arith) (omega arith) k (omega arith) in
      let next =
        run-records (f ∷ rest) (after + 1) [] n' s' fresh_local (o + 1) total fresh-IsLive
          (omega arith) (omega arith) k (omega arith) in
      byte_lem start body n s l o c total (f ∷ rest) _
        (λ l'. records_from d start (body ++ c ∷ []) l' (f ∷ rest)) h e (omega arith) (omega arith)
        (λ m b.
          break_lem n' s' total o c f rest m _ _ b
            (restart n' s' total (o + 1 + 1) (after + 2) rest _ (omega arith) (omega arith) skipped)
            (restart n' s' total (o + 1) (after + 1) (f ∷ rest) _ (omega arith) (omega arith) next))
        (λ l' h' w'.
          run-records (f ∷ rest) start (body ++ c ∷ []) n s l' (o + 1) total h'
            (omega (arith, length-append body (c ∷ []))) (omega arith) k (omega arith))
        (local_step l.mode d l c) refl
