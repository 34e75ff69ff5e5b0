-- ===== src/Index/Complete.antt =====
-- `markComplete` and what `isComplete` says afterwards.
use data_table_viewer.Prelude.{true, false, ◌≡◌, ap, inl, inr, Bool-cases, arith}
use data_table_viewer.Index.{
  FileOps, Index, flush_buffer, put_header, flush, mark_complete, is_complete,
}

module _ {F : Type 0} (ops : FileOps F) where
  -- The parts of an index that writing does not touch.
  abbrev Kept : Index F → Index F → Type 0
  Kept y x = (y.header ≡ x.header) × (y.failed ≡ x.failed)

  flush_buffer-Kept : (x : Index F) → Kept (flush_buffer ops x).1 x
  unfolding flush_buffer
  flush_buffer-Kept x = ground arith

  put_header-Kept : (x : Index F) → Kept (put_header ops x).1 x
  unfolding put_header
  put_header-Kept x = ground arith

  flush-Kept : (x : Index F) → (flush ops x).0 ≡ true → Kept (flush ops x).1 x × (x.failed ≡ false)
  unfolding flush
  flush-Kept x e =
      let (a, b) = flush_buffer-Kept x in
      let (c, d) = put_header-Kept (flush_buffer ops x).1 in ground arith

  -- `markComplete` succeeds exactly when `isComplete` holds afterwards, whatever the index was,
  -- and whatever the file does: a flush that fails leaves no index that says it is complete.
  pub mark_complete_lem :
      (x : Index F) → is_complete (mark_complete ops x).1 ≡ (mark_complete ops x).0
  unfolding mark_complete is_complete
  mark_complete_lem x =
      let x' : Index F = record x { header = record x.header { is_complete = true } } in
      let r = flush ops x' in
      elim (Bool-cases r.0) [
        | inl ok ↦
            let ((h, f), s) = flush-Kept x' ok in
            let h' : r.1.header.is_complete ≡ true = ap (λ y. y.is_complete) h in ground arith
        | inr bad ↦ ground arith
      ]
