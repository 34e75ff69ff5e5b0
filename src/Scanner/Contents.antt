-- ===== src/Scanner/Contents.antt =====
-- The records of a whole source: where they stand, and that a scan hands on just them.
use data_table_viewer.Prelude.{
  ℕ, ◌+◌, ◌^◌, ◌≤◌, ◌<◌, Bool, true, false, ◌&&◌, ◌||◌, List, [], ◌∷◌, ◌++◌, Option, none, some,
  ◌≡◌, refl, sym, ap, subst, ◌∙◌, ◌==◌, if◌then◌else◌, if_intro, length, drop, length-append,
  append_assoc, Bytes, arith, Bool-cases, inl, inr, take, take-append-drop, length-take,
  length-drop,
}
use data_table_viewer.Scanner.{Callbacks, CancelCheck, is_bom}
use data_table_viewer.Scanner.Machine.{
  IsStream, is_quoted, run, close, read_prefix, reference, fresh,
}
use data_table_viewer.Scanner.Probe.{delimiter_of}
use data_table_viewer.Scanner.Prefix.{is_bom-length}
use data_table_viewer.Scanner.Loop.{Never}
use data_table_viewer.Scanner.Whole.{started, concat, feed_all, feed_all_lem}
use data_table_viewer.Scanner.Local.{Local, fresh_local, local_step, local_run}
use data_table_viewer.Scanner.Records.{
  SourceRecord, record_of, records_from, records_fold, run-records, fresh-IsLive, spread-fresh,
}

-- A byte order mark is no data.
unfoldable pub records_of : ℕ → Bytes → List SourceRecord
records_of d content =
    if is_bom content
    then records_from d 3 [] fresh_local (drop 3 content)
    else records_from d 0 [] fresh_local content

-- The record stands in the source where it says, and its cells are what its bytes alone give.
pub record StandsIn (content : Bytes) (d : ℕ) (r : SourceRecord) : Type 0 where
  pub before : Bytes
  pub after : Bytes
  pub content_is : content ≡ before ++ (r.body ++ after)
  pub place : length before ≡ r.start
  pub cells_are : local_run d fresh_local r.body ≡ some r.local

abbrev pub AllStandIn : Bytes → ℕ → List SourceRecord → Type 0
AllStandIn content d [] = Unit
AllStandIn content d (r ∷ records) = StandsIn content d r × AllStandIn content d records

one_step :
    (d : ℕ) (l' : Local) (r : Option Local)
    → r ≡ some l'
    → (elim r [ none ↦ none | some x ↦ local_run d x [] ]) ≡ some l'
unfolding local_run
one_step d l' none e = e
one_step d l' (some x) e = e

local_run-append :
    (d : ℕ) (body : Bytes) (c : ℕ) (l l' : Local) (first : Local)
    → local_run d first body ≡ some l
    → local_step l.mode d l c ≡ some l'
    → local_run d first (body ++ c ∷ []) ≡ some l'
unfolding local_run
local_run-append d [] c l l' first h e =
    let f : first ≡ l = cc h in
    subst (λ x. local_run d x (c ∷ []) ≡ some l') (sym f)
      (one_step d l' (local_step l.mode d l c) e)
local_run-append d (b ∷ body) c l l' first h e =
    go (local_step first.mode d first b) (λ x q. local_run-append d body c l l' x q e) h
  where
    go :
        (r : Option Local)
        → ((x : Local) → local_run d x body ≡ some l → local_run d x (body ++ c ∷ []) ≡ some l')
        → (elim r [ none ↦ none | some x ↦ local_run d x body ]) ≡ some l
        → (elim r [ none ↦ none | some x ↦ local_run d x (body ++ c ∷ []) ]) ≡ some l'
    go none ih q = absurd (cc q)
    go (some x) ih q = ih x q

module _ (content : Bytes) (d : ℕ) where
  All-if :
      (t : Bool) (a b : List SourceRecord)
      → AllStandIn content d a
      → AllStandIn content d b
      → AllStandIn content d (if t then a else b)
  All-if true a b p q = p
  All-if false a b p q = q

  -- The rest behind one byte more.
  shifted :
      (before body rest : Bytes) (c : ℕ)
      → content ≡ before ++ (body ++ c ∷ rest)
      → content ≡ before ++ ((body ++ c ∷ []) ++ rest)
  shifted before body rest c e = e ∙ ap (λ x. before ++ x) (sym (append_assoc body (c ∷ []) rest))

  -- The rest behind a record and its line break.
  behind :
      (before body br rest : Bytes)
      → content ≡ before ++ (body ++ (br ++ rest))
      → content ≡ (before ++ (body ++ br)) ++ rest
  behind before body br rest e =
      e
      ∙ ap (λ x. before ++ x) (sym (append_assoc body br rest))
      ∙ sym (append_assoc before (body ++ br) rest)

  behind-length :
      (before body br : Bytes) (start : ℕ)
      → length before ≡ start
      → length (before ++ (body ++ br)) ≡ start + length body + length br
  behind-length before body br start k =
      omega (arith, k, length-append before (body ++ br), length-append body br)

  stands :
      (start : ℕ) (before body after : Bytes) (l : Local)
      → content ≡ before ++ (body ++ after)
      → length before ≡ start
      → local_run d fresh_local body ≡ some l
      → StandsIn content d (record_of start body l)
  stands start before body after l e k h = record {
    before = before;
    after = after;
    content_is = e;
    place = k;
    cells_are = h;
  }

  fresh_run : local_run d fresh_local [] ≡ some fresh_local
  unfolding local_run
  fresh_run = refl

  -- A byte inside the record, or one that ends it.
  byte-All :
      (start : ℕ) (before body after : Bytes) (l : Local) (c : ℕ) (ended : List SourceRecord)
      (later : Local → List SourceRecord)
      → StandsIn content d (record_of start body l)
      → local_run d fresh_local body ≡ some l
      → AllStandIn content d ended
      → ((l' : Local)
          → local_run d fresh_local (body ++ c ∷ []) ≡ some l'
          → AllStandIn content d (later l'))
      → (r : Option Local) → local_step l.mode d l c ≡ r
      → AllStandIn content d (elim r [ none ↦ record_of start body l ∷ ended | some l' ↦ later l' ])
  byte-All start before body after l c ended later h k p q none e = (h, p)
  byte-All start before body after l c ended later h k p q (some l') e =
      q l' (local_run-append d body c l l' fresh_local k e)

  records_from-StandIn :
      (rest : Bytes) (start : ℕ) (before body : Bytes) (l : Local)
      → content ≡ before ++ (body ++ rest)
      → length before ≡ start
      → local_run d fresh_local body ≡ some l
      → AllStandIn content d (records_from d start body l rest)
  unfolding records_from
  records_from-StandIn [] start before body l e k h =
      All-if (l.saw || is_quoted l.mode) (record_of start body l ∷ []) []
        (stands start before body [] l e k h, tt) tt
  records_from-StandIn (c ∷ []) start before body l e k h =
      byte-All start before body (c ∷ []) l c [] (λ l'. records_from d start (body ++ c ∷ []) l' [])
        (stands start before body (c ∷ []) l e k h) h tt
        (λ l' h'.
          records_from-StandIn [] start before (body ++ c ∷ []) l' (shifted before body [] c e) k
            h')
        (local_step l.mode d l c) refl
  records_from-StandIn (c ∷ f ∷ rest) start before body l e k h =
      let skipped =
        records_from-StandIn rest (start + length body + 2) (before ++ (body ++ c ∷ f ∷ [])) []
          fresh_local (behind before body (c ∷ f ∷ []) rest e)
          (behind-length before body (c ∷ f ∷ []) start k) (fresh_run) in
      let next =
        records_from-StandIn (f ∷ rest) (start + length body + 1) (before ++ (body ++ c ∷ [])) []
          fresh_local (behind before body (c ∷ []) (f ∷ rest) e)
          (behind-length before body (c ∷ []) start k) (fresh_run) in
      byte-All start before body (c ∷ f ∷ rest) l c _
        (λ l'. records_from d start (body ++ c ∷ []) l' (f ∷ rest))
        (stands start before body (c ∷ f ∷ rest) l e k h) h
        (All-if (c == b'\r' && f == b'\n') _ _ skipped next)
        (λ l' h'.
          records_from-StandIn (f ∷ rest) start before (body ++ c ∷ []) l'
            (shifted before body (f ∷ rest) c e) k h')
        (local_step l.mode d l c) refl

  records_of-StandIn : AllStandIn content d (records_of d content)
  unfolding records_of
  records_of-StandIn = elim (Bool-cases (is_bom content)) [
    | inl e ↦
        let k = is_bom-length content e in
        simp e (
          records_from-StandIn (drop 3 content) 3 (take 3 content) [] fresh_local
            (sym (take-append-drop 3 content)) (omega (arith, length-take 3 content)) fresh_run)
    | inr e ↦ simp e (records_from-StandIn content 0 [] [] fresh_local refl refl fresh_run)
  ]

-- There are no more records than bytes, and one.
byte-length :
    (start : ℕ) (body : Bytes) (l : Local) (ended : List SourceRecord)
    (later : Local → List SourceRecord) (bound : ℕ)
    → length ended + 1 ≤ bound
    → ((l' : Local) → length (later l') ≤ bound)
    → (r : Option Local)
    → length (elim r [ none ↦ record_of start body l ∷ ended | some l' ↦ later l' ]) ≤ bound
byte-length start body l ended later bound p q none = omega arith
byte-length start body l ended later bound p q (some l') = q l'

length-records_from :
    (d : ℕ) (rest : Bytes) (start : ℕ) (body : Bytes) (l : Local)
    → length (records_from d start body l rest) ≤ length rest + 1
unfolding records_from
length-records_from d [] start body l =
    if_intro (λ rs. length rs ≤ 0 + 1) (l.saw || is_quoted l.mode) (record_of start body l ∷ []) []
      (λ _. omega arith) (λ _. omega arith)
length-records_from d (c ∷ []) start body l =
    byte-length start body l [] _ (length (c ∷ []) + 1) (omega arith)
      (λ l'. omega (arith, length-records_from d [] start (body ++ c ∷ []) l'))
      (local_step l.mode d l c)
length-records_from d (c ∷ f ∷ rest) start body l =
    let o = start + length body in
    let skipped = records_from d (o + 2) [] fresh_local rest in
    let next = records_from d (o + 1) [] fresh_local (f ∷ rest) in
    byte-length start body l (if c == b'\r' && f == b'\n' then skipped else next) _
      (length (c ∷ f ∷ rest) + 1)
      (if_intro (λ rs. length rs + 1 ≤ length (c ∷ f ∷ rest) + 1) (c == b'\r' && f == b'\n') skipped
        next (λ _. omega (arith, length-records_from d rest (o + 2) [] fresh_local))
        (λ _. omega (arith, length-records_from d (f ∷ rest) (o + 1) [] fresh_local)))
      (λ l'. omega (arith, length-records_from d (f ∷ rest) start (body ++ c ∷ []) l'))
      (local_step l.mode d l c)

pub length-records_of :
    (d : ℕ) (content : Bytes) → length (records_of d content) ≤ length content + 1
unfolding records_of
length-records_of d content =
    if_intro (λ rs. length rs ≤ length content + 1) (is_bom content)
      (records_from d 3 [] fresh_local (drop 3 content)) (records_from d 0 [] fresh_local content)
      (λ _.
        omega
          (arith, length-drop 3 content, length-records_from d (drop 3 content) 3 [] fresh_local))
      (λ _. length-records_from d content 0 [] fresh_local)

module _ {S : Type 0} (cb : Callbacks S) (stream : IsStream cb) (d : ℕ) where
  from_start :
      (s : S) (start total : ℕ) (bytes : Bytes)
      → total ≡ start + length bytes
      → total < 2 ^ 64
      → close cb (run cb d (fresh start s) start bytes) total
        ≡ records_fold cb 0 s (records_from d start [] fresh_local bytes)
  from_start s start total bytes e k =
      ap (λ m. close cb (run cb d m start bytes) total) (sym (spread-fresh cb stream d 0 start s))
      ∙ run-records cb stream d bytes start [] 0 s fresh_local start total fresh-IsLive
          (omega arith) e k (omega arith)

  reference-records :
      (s : S) (content : Bytes)
      → length content < 2 ^ 64
      → reference cb d s content ≡ records_fold cb 0 s (records_of d content)
  unfolding reference read_prefix records_of
  reference-records s content k = elim (Bool-cases (is_bom content)) [
    | inl e ↦
        let n = is_bom-length content e in
        simp e (
          from_start s 3 (length content) (drop 3 content) (omega (arith, length-drop 3 content)) k)
    | inr e ↦ simp e (from_start s 0 (length content) content (omega arith) k)
  ]

-- The scan of a source is the pass over its records: a new scanner that is fed the source in any
-- chunks, and is not asked to stop, has made of the callbacks' state `s` what the records make of
-- it one after another, each by its cells, the last of them ended, and then by its end with its
-- number and its place. The source has less than 2^64 bytes. Each of the records stands in the
-- source where it says, and its cells are those that its bytes alone give. The callbacks may not
-- tell how a field is cut into fragments.
pub feed_all-records :
    {S : Type 0} (cb : Callbacks S) (stream : IsStream cb) (cancel : CancelCheck S)
    (never : Never cancel) (d : ℕ) (s : S) (chunk : Bytes) (chunks : List Bytes)
    → length (concat (chunk ∷ chunks)) < 2 ^ 64
    → (let r = feed_all cb cancel (started d s) 0 (chunk ∷ chunks) in
        let records = records_of (delimiter_of d) (concat (chunk ∷ chunks)) in
        (r.0 ≡ true)
        × (r.1.out ≡ records_fold cb 0 s records)
        × AllStandIn (concat (chunk ∷ chunks)) (delimiter_of d) records)
feed_all-records cb stream cancel never d s chunk chunks k =
    let (ok, out) = feed_all_lem cb stream cancel never d s chunk chunks in
    let content = concat (chunk ∷ chunks) in
    (
      ok,
      out ∙ reference-records cb stream (delimiter_of d) s content k,
      records_of-StandIn content (delimiter_of d),
    )
