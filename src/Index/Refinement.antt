-- ===== src/Index/Refinement.antt =====
-- `CsvRecordIndex` as a plain list of spans.
use data_table_viewer.Prelude.{
  ℕ, ◌+◌, ◌^◌, ◌≤◌, ◌<◌, Bool, true, false, List, [], ◌∷◌, ◌++◌, Option, none, some, ◌≡◌, refl, ap,
  inl, inr, ◌⊎◌, Bool-cases, arith, length, length-append, ltb, if◌then◌else◌,
}
use data_table_viewer.Prelude.Int.{ℤ, pos, negsuc}
use data_table_viewer.Index.{
  Span, FileOps, FileLaws, Index, init, add_span, append_span, read_span, flush, mark_complete,
  inverted_span,
}
use data_table_viewer.Index.Holds.{Holds}
use data_table_viewer.Index.Append.{Ends, add_span-Ends}
use data_table_viewer.Index.Flush.{init-Holds, flush-Ends, mark_complete-Ends}
use data_table_viewer.Index.Read.{Reads, lookup, read_span-Reads}

-- The operations of a client that hand back a result.
pub data Op : Type 0 where
  append : ℕ → ℕ → Op
  read : ℤ → Op
  flush_all complete : Op

pub data Answer : Type 0 where
  done : Bool → Answer
  found : Option Span → Answer

-- What the operations mean on a list of spans.
abbrev pub spec : Op → List Span → Answer × List Span
spec (append a b) spans =
    if ltb b a
    then (done false, spans)
    else (done true, spans ++ record { start = a; end_offset = b } ∷ [])
spec (read ordinal) spans = (found (lookup ordinal spans), spans)
spec flush_all spans = (done true, spans)
spec complete spans = (done true, spans)

abbrev pub spec_all : List Op → List Span → List Answer
spec_all [] spans = []
spec_all (op ∷ ops) spans = let (a, spans') = spec op spans in a ∷ spec_all ops spans'

-- The answers of an index that has failed.
abbrev pub Refused : Answer → Type 0
Refused (done b) = b ≡ false
Refused (found o) = o ≡ none

abbrev pub AllRefused : List Answer → Type 0
AllRefused [] = Unit
AllRefused (a ∷ answers) = Refused a × AllRefused answers

-- The same answers up to some point, and from there on refusals.
abbrev pub Agrees : List Answer → List Answer → Type 0
Agrees [] [] = Unit
Agrees [] (b ∷ bs) = ⊥
Agrees (a ∷ answers) [] = ⊥
Agrees (a ∷ answers) (b ∷ bs) = (Refused a × AllRefused answers) ⊎ ((a ≡ b) × Agrees answers bs)

module _ {F : Type 0} (ops : FileOps F) where
  unfoldable pub exec : Op → Index F → Answer × Index F
  exec (append a b) x = let r = append_span ops a b x in (done r.0, r.1)
  exec (read ordinal) x = let r = read_span ops ordinal x in (found r.0, r.1)
  exec flush_all x = let r = flush ops x in (done r.0, r.1)
  exec complete x = let r = mark_complete ops x in (done r.0, r.1)

  unfoldable pub exec_all : List Op → Index F → List Answer
  exec_all [] x = []
  exec_all (op ∷ rest) x = let r = exec op x in r.0 ∷ exec_all rest r.1

  -- An index that has failed refuses everything, and stays so.
  pub exec-failed :
      (op : Op) (x : Index F)
      → x.failed ≡ true
      → Refused (exec op x).0 × ((exec op x).1.failed ≡ true)
  unfolding exec append_span read_span flush mark_complete
  exec-failed (append a b) x e = ground arith
  exec-failed (read (pos n)) x e = ground arith
  exec-failed (read (negsuc n)) x e = (refl, e)
  exec-failed flush_all x e = ground arith
  exec-failed complete x e = ground arith

  exec_all-failed : (rest : List Op) (x : Index F) → x.failed ≡ true → AllRefused (exec_all rest x)
  unfolding exec_all
  exec_all-failed [] x e = tt
  exec_all-failed (op ∷ rest) x e =
      let (r, f) = exec-failed op x e in (r, exec_all-failed rest (exec op x).1 f)

module _ {F : Type 0} (ops : FileOps F) (laws : FileLaws ops) where
  -- What one operation may do on an index that holds `spans`.
  abbrev Steps : Answer × Index F → Answer × List Span → Type 0
  Steps r answer =
      (Refused r.0 × (r.1.failed ≡ true)) ⊎ ((r.0 ≡ answer.0) × Holds ops laws r.1 answer.1)

  pub append-good :
      (a b : ℕ) (x : Index F)
      → x.failed ≡ false
      → ltb b a ≡ false
      → append_span ops a b x ≡ add_span ops (record { start = a; end_offset = b }) x
  unfolding append_span
  append-good a b x e e' = rw (e, e') refl

  append-bad :
      (a b : ℕ) (x : Index F)
      → x.failed ≡ false
      → ltb b a ≡ true
      → append_span ops a b x ≡ (false, record x { error = some inverted_span })
  unfolding append_span
  append-bad a b x e e' = rw (e, e') refl

  done-Steps :
      (r : Bool × Index F) (answer : Bool) (spans : List Span)
      → Ends ops laws r answer spans
      → Steps (done r.0, r.1) (done answer, spans)
  done-Steps r answer spans (inl h) = inl h
  done-Steps r answer spans (inr (e, v)) = inr (ap done e, v)

  found-Steps :
      (r : Option Span × Index F) (answer : Option Span) (spans : List Span)
      → Reads ops laws r answer spans
      → Steps (found r.0, r.1) (found answer, spans)
  found-Steps r answer spans (inl h) = inl h
  found-Steps r answer spans (inr (e, v)) = inr (ap found e, v)

  error-Holds :
      (x : Index F) (spans : List Span)
      → Holds ops laws x spans
      → Holds ops laws (record x { error = some inverted_span }) spans
  error-Holds x spans v = record {
    sound = v.sound;
    counted = v.counted;
    bounded = v.bounded;
    cached = v.cached;
    disk = v.disk;
    split = v.split;
    on_disk = v.on_disk;
    windowed = v.windowed;
  }

  append-Steps :
      (a b : ℕ) (x : Index F) (spans : List Span)
      → Holds ops laws x spans
      → length spans + 1 < 2 ^ 59
      → Steps (exec ops (append a b) x) (spec (append a b) spans)
  unfolding exec
  append-Steps a b x spans v h = elim (Bool-cases (ltb b a)) [
    | inl e ↦ rw (append-bad a b x v.sound e, e) (inr (refl, error-Holds x spans v))
    | inr e ↦
        let span : Span = record { start = a; end_offset = b } in
        rw (append-good a b x v.sound e, e)
          (done-Steps (add_span ops span x) true (spans ++ span ∷ [])
            (add_span-Ends ops laws span x spans v h))
  ]

  exec-Steps :
      (op : Op) (x : Index F) (spans : List Span)
      → Holds ops laws x spans
      → length spans + 1 < 2 ^ 59
      → Steps (exec ops op x) (spec op spans)
  unfolding exec
  exec-Steps (append a b) x spans v h = append-Steps a b x spans v h
  exec-Steps (read ordinal) x spans v h =
      found-Steps (read_span ops ordinal x) (lookup ordinal spans) spans
        (read_span-Reads ops laws ordinal x spans v)
  exec-Steps flush_all x spans v h =
      done-Steps (flush ops x) true spans (flush-Ends ops laws x spans v)
  exec-Steps complete x spans v h =
      done-Steps (mark_complete ops x) true spans (mark_complete-Ends ops laws x spans v)

  length-spec : (op : Op) (spans : List Span) → length (spec op spans).1 ≤ length spans + 1
  length-spec (append a b) spans = elim (Bool-cases (ltb b a)) [
    | inl e ↦ rw e (omega arith)
    | inr e ↦ rw e (omega (arith, length-append spans (record { start = a; end_offset = b } ∷ [])))
  ]
  length-spec (read ordinal) spans = omega arith
  length-spec flush_all spans = omega arith
  length-spec complete spans = omega arith

  exec_all-Agrees :
      (rest : List Op) (x : Index F) (spans : List Span)
      → Holds ops laws x spans
      → length spans + length rest < 2 ^ 59
      → Agrees (exec_all ops rest x) (spec_all rest spans)
  unfolding exec_all
  exec_all-Agrees [] x spans v h = tt
  exec_all-Agrees (op ∷ rest) x spans v h = elim (exec-Steps op x spans v (omega arith)) [
    | inl (r, f) ↦ inl (r, exec_all-failed ops rest (exec ops op x).1 f)
    | inr (e, v') ↦ inr (
      e,
      exec_all-Agrees rest (exec ops op x).1 (spec op spans).1 v'
          (omega (arith, length-spec op spans)),
    )
  ]

  -- An index that `init` has set up, whatever it was before, answers any sequence of less than
  -- 2^59 operations as the list of the spans appended so far does, with every in-range ordinal
  -- found and every other one refused; or it does so up to some operation, and refuses that one
  -- and all that follow.
  pub exec_all_lem :
      (created : Option F) (x : Index F) (rest : List Op)
      → (init ops created x).0 ≡ true
      → length rest < 2 ^ 59
      → Agrees (exec_all ops rest (init ops created x).1) (spec_all rest [])
  exec_all_lem created x rest e h =
      exec_all-Agrees rest (init ops created x).1 [] (init-Holds ops laws created x e) (omega arith)
