-- ===== src/Worker/Calls.antt =====
-- What every request of the worker uses: the tests for a stale request, the cancel check, and the
-- one repetition of a call that was interrupted by a stray interrupt.
use data_table_viewer.Prelude.{
  ℕ, ◌+◌, Bool, true, false, not, ◌&&◌, ◌||◌, [], ◌∷◌, ◌++◌, Option, none, some, ltb, ◌==◌,
  if◌then◌else◌,
}
use data_table_viewer.FileSource.State.{SourceError, page_cancelled, interrupted}
use data_table_viewer.Worker.{Moment, Watch, Worker, Signal}

-- `isCancellationError`
unfoldable pub is_cancellation : Option SourceError → Bool
is_cancellation none = false
is_cancellation (some page_cancelled) = true
is_cancellation (some interrupted) = true
is_cancellation (some _) = false

-- The cancel check of `applyCancelCheck`, with no hook.
unfoldable pub fires : Watch → Moment → Bool
fires w m =
    not (m.view_gen == w.view_gen)
    || (elim w.op_gen [ none ↦ false | some op ↦ not (m.op_gen == op) ]
        || ltb w.start_seq m.sequence)

-- `now` says what the other threads have written by each moment. A request reads one generation
-- after the other.
module _ (now : ℕ → Moment) where
  unfoldable pub is_stale : ℕ → ℕ → ℕ → Bool
  is_stale view_gen op_gen clock =
      not ((now clock).view_gen == view_gen) || not ((now (clock + 1)).op_gen == op_gen)

  unfoldable pub is_view_stale : ℕ → ℕ → Bool
  is_view_stale view_gen clock = not ((now clock).view_gen == view_gen)

  abbrev pub check_of : Watch → ℕ → Bool
  check_of w clock = fires w (now clock)

  -- A call is made again at once if it was cancelled though nobody has asked for that since it
  -- began. `stale` is a test that takes `cost` moments.
  unfoldable pub execute_with_interrupt_retry :
      {X A : Type 0} → (A → Bool) → (ℕ → Bool) → ℕ → (ℕ → X → A × X × ℕ) → ℕ → X → A × X × ℕ
  execute_with_interrupt_retry is_cancelled stale cost call clock x =
      let start_seq = (now clock).sequence in
      let (res, x', clock') = call clock x in
      let again = call (clock' + cost) x' in
      if is_cancelled res
      then if not (stale clock') && (now clock').sequence == start_seq
        then again
        else (res, x', clock' + cost)
      else (res, x', clock')

module _ {X Double : Type 0} where
  -- `emit`
  abbrev pub emit : Signal Double → Worker X Double → Worker X Double
  emit s w = record w { emitted = w.emitted ++ (w.clock, s) ∷ [] }

  abbrev pub drop_pending : Worker X Double → Worker X Double
  drop_pending w = record w { pending = none }

  abbrev pub at_clock : ℕ → Worker X Double → Worker X Double
  at_clock clock w = record w { clock = clock }

module _ {X Double : Type 0} (now : ℕ → Moment) where
  -- The guard that every request begins with.
  unfoldable pub guarded :
      ℕ → ℕ → (X → Worker X Double → Worker X Double) → Worker X Double → Worker X Double
  guarded view_gen op_gen run w =
      let w' = at_clock (w.clock + 2) w in
      if is_stale now view_gen op_gen w.clock
      then w'
      else elim w.source [ none ↦ w' | some x ↦ run x w' ]

  -- The end of a request: the view may have moved on.
  unfoldable pub emit_unless_stale : ℕ → ℕ → Signal Double → Worker X Double → Worker X Double
  emit_unless_stale view_gen op_gen s w =
      let w' = at_clock (w.clock + 2) w in
      if is_stale now view_gen op_gen w.clock then w' else emit s w'
