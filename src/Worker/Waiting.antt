-- ===== src/Worker/Waiting.antt =====
-- A slice of the index, and the page request that waits for it: it does not wait for ever.
use data_table_viewer.Prelude.{
  ℕ, ◌+◌, Bool, true, false, ◌||◌, ◌⊎◌, [], ◌∷◌, ◌++◌, none, some, ◌≡◌, ◌≢◌,
}
use data_table_viewer.Prelude.Int.{ℤ}
use data_table_viewer.FileSource.Indexing.{IndexProgress}
use data_table_viewer.Worker.{Moment, TableSource, Worker}
use data_table_viewer.Worker.Calls.{check_of}
use data_table_viewer.Worker.Pages.{is_pending}
use data_table_viewer.Worker.Slicing.{slice_bytes, has_error}
use data_table_viewer.Worker.Resolving.{Untouched, Reported, Fate}

-- What a source promises of its index: once a slice has reported that it is complete, no page waits.
pub record IsIndexing {X K Double : Type 0} (src : TableSource X K Double) : Type 0 where
  pub complete_ready :
      (check : ℕ → Bool) (clock : ℕ) (x : X) (first size : ℤ)
      → let r = src.advance_index slice_bytes check clock x in
        r.0.error ≡ none → r.0.complete ≡ true → is_pending (src.readiness first size r.1) ≡ false

module _ {X K Double : Type 0} (src : TableSource X K Double) (now : ℕ → Moment) (v : ℕ) (x : X)
    (before : Worker X Double) where
  -- The slice itself, of 256 KiB, with a check that watches the view and the interrupts.
  abbrev pub slice : IndexProgress × X × ℕ
  slice =
      src.advance_index slice_bytes
        (check_of now
          (record { view_gen = v; op_gen = none; start_seq = (now (before.clock + 1)).sequence }))
        (before.clock + 1) x

  -- The worker with what the slice has left.
  abbrev pub behind_slice : Worker X Double
  behind_slice = record before { source = some (slice.1); clock = slice.2 + 1 }

  abbrev pub HasMoved : ℕ → Type 0
  HasMoved t = ((now t).view_gen ≢ v) ⊎ ((now t).stop_requested ≡ true)

  abbrev pub HasStayed : ℕ → Type 0
  HasStayed t = ((now t).view_gen ≡ v) × ((now t).stop_requested ≡ false)

  -- How a slice of the view `v` leaves the worker, which it finds as `before`.
  pub data Sliced (w : Worker X Double) : Type 0 where
    not_begun : HasMoved before.clock → Untouched before w → Sliced w
    overtaken : HasStayed before.clock → (now slice.2).view_gen ≢ v → Untouched before w → Sliced w
    finished :
        (w1 : Worker X Double)
        → HasStayed before.clock
        → (now slice.2).view_gen ≡ v
        → Reported now v slice.0 behind_slice w1
        → Fate src now slice.0 slice.1 w1 w
        → (slice.0.complete || has_error slice.0.error) ≡ true
        → w.pending ≡ none
        → w.queued ≡ before.queued
        → Sliced w
    halted :
        (w1 w2 : Worker X Double)
        → HasStayed before.clock
        → (now slice.2).view_gen ≡ v
        → Reported now v slice.0 behind_slice w1
        → Fate src now slice.0 slice.1 w1 w2
        → (slice.0.complete || has_error slice.0.error) ≡ false
        → HasMoved w2.clock
        → Untouched w2 w
        → Sliced w
    goes_on :
        (w1 w2 : Worker X Double)
        → HasStayed before.clock
        → (now slice.2).view_gen ≡ v
        → Reported now v slice.0 behind_slice w1
        → Fate src now slice.0 slice.1 w1 w2
        → (slice.0.complete || has_error slice.0.error) ≡ false
        → HasStayed w2.clock
        → w.pending ≡ w2.pending
        → w.emitted ≡ w2.emitted
        → w.queued ≡ before.queued ++ v ∷ []
        → Sliced w
