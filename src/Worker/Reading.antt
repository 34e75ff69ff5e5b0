-- ===== src/Worker/Reading.antt =====
-- What `refetchRows` reads for a copy, row after row, and what it makes of the budget.
use data_table_viewer.Prelude.{
  ℕ, ◌+◌, ◌≤◌, ◌<◌, Bool, true, false, not, ◌&&◌, ◌⊎◌, inl, inr, List, [], ◌∷◌, ◌++◌, Option, none,
  some, ◌≡◌, ◌≢◌, refl, sym, ap, subst, ◌∙◌, append_assoc, append-nil, arith, ltb, length, Bytes,
  if◌then◌else◌, if_intro,
}
use data_table_viewer.Prelude.Int.{ℤ}
use data_table_viewer.FileSource.State.{budget_exceeded}
use data_table_viewer.FileSource.Refetching.{RefetchResult, failed_refetch, max_copy_budget_bytes}
use data_table_viewer.Worker.{Moment, TableSource}
use data_table_viewer.Worker.Calls.{is_cancellation, is_view_stale, execute_with_interrupt_retry}
use data_table_viewer.Worker.Retry.{Retried, execute_with_interrupt_retry-Retried}
use data_table_viewer.Worker.Copying.{
  values_bytes, fail_all, Batch, add_row, skip_row, batch_results, refetch_all,
}

-- The numbers of the rows.
abbrev pub rows_of : {A : Type 0} → List (ℤ × A) → List ℤ
rows_of [] = []
rows_of ((row, a) ∷ rows) = row ∷ rows_of rows

-- The lengths of the cells of a row together.
abbrev pub cells_bytes : List Bytes → ℕ
cells_bytes [] = 0
cells_bytes (v ∷ values) = length v + cells_bytes values

values_bytes-cells_bytes : (values : List Bytes) → values_bytes values ≡ cells_bytes values
unfolding values_bytes
values_bytes-cells_bytes [] = refl
values_bytes-cells_bytes (v ∷ values) = ap (λ n. length v + n) (values_bytes-cells_bytes values)

-- The bytes of a result that the copy would take.
abbrev pub result_bytes : RefetchResult → ℕ
result_bytes r = if r.success then cells_bytes r.values else 0

abbrev pub batch_bytes : List (ℤ × RefetchResult) → ℕ
batch_bytes [] = 0
batch_bytes ((row, r) ∷ results) = result_bytes r + batch_bytes results

-- Every row has failed with the budget.
abbrev pub AllFailed : List (ℤ × RefetchResult) → Type 0
AllFailed [] = Unit
AllFailed ((row, r) ∷ results) = (r ≡ failed_refetch budget_exceeded) × AllFailed results

fail_all-AllFailed : (results : List (ℤ × RefetchResult)) → AllFailed (fail_all results)
unfolding fail_all
fail_all-AllFailed [] = tt
fail_all-AllFailed ((row, r) ∷ results) = (refl, fail_all-AllFailed results)

rows_of-fail_all :
    (results : List (ℤ × RefetchResult)) → rows_of (fail_all results) ≡ rows_of results
unfolding fail_all
rows_of-fail_all [] = refl
rows_of-fail_all ((row, r) ∷ results) = ap (λ rows. row ∷ rows) (rows_of-fail_all results)

batch_bytes-fail_all : (results : List (ℤ × RefetchResult)) → batch_bytes (fail_all results) ≡ 0
unfolding fail_all
batch_bytes-fail_all [] = refl
batch_bytes-fail_all ((row, r) ∷ results) = omega (arith, batch_bytes-fail_all results)

-- The results of a copy of `rows` that has read `read`: one for each row in its order, whose bytes
-- are within the budget. They are those that were read, or, where these exceed the budget,
-- failures alone.
pub record IsCopy (rows : List ℤ) (read results : List (ℤ × RefetchResult)) : Type 0 where
  pub in_order : rows_of results ≡ rows
  pub within : batch_bytes results ≤ max_copy_budget_bytes
  pub whole :
      ((batch_bytes read ≤ max_copy_budget_bytes) × (results ≡ read))
      ⊎ ((max_copy_budget_bytes < batch_bytes read) × AllFailed results)

-- A batch knows the bytes so far, and whether they are too many.
pub record IsCounted (b : Batch) (total : ℕ) : Type 0 where
  pub counted : b.total_bytes ≡ total
  pub judged : b.exceeded ≡ ltb max_copy_budget_bytes total

add_row-IsCounted :
    (b : Batch) (row : ℤ) (r : RefetchResult) (total : ℕ)
    → IsCounted b total
    → b.exceeded ≡ false
    → IsCounted (add_row row r b) (total + result_bytes r)
unfolding add_row
add_row-IsCounted b row r total h e = record {
  counted = ground (arith, h.counted, values_bytes-cells_bytes r.values);
  judged = ground (arith, h.counted, h.judged, values_bytes-cells_bytes r.values);
}

pub batch_results-IsCopy :
    (rows : List ℤ) (read : List (ℤ × RefetchResult)) (b : Batch)
    → rows_of read ≡ rows
    → b.results ≡ read
    → IsCounted b (batch_bytes read)
    → IsCopy rows read (batch_results b)
unfolding batch_results
batch_results-IsCopy rows read b o same h =
    if_intro (IsCopy rows read) b.exceeded (fail_all b.results) b.results
      (λ e. record {
        in_order = rows_of-fail_all b.results ∙ ap (λ r. rows_of r) same ∙ o;
        within = omega (arith, batch_bytes-fail_all b.results);
        whole = inr (ground (arith, h.judged), fail_all-AllFailed b.results);
      })
      (λ e. record {
        in_order = ap (λ r. rows_of r) same ∙ o;
        within = rw same (ground (arith, h.judged));
        whole = inl (ground (arith, h.judged), same);
      })

module _ {X K Double : Type 0} (src : TableSource X K Double) (now : ℕ → Moment) (v : ℕ)
    (check : ℕ → Bool) where
  -- A row is read from the source `x` at the moment `t`, with one more call if a stray interrupt has
  -- ended the first.
  abbrev pub Read : K → ℕ → X → RefetchResult × X × ℕ → Type 0
  Read key t x =
      Retried now (λ r. not r.success && is_cancellation r.error) (is_view_stale now v) 1
        (src.refetch key check) t x

  -- What a source `x` gives for rows, one after another, from the moment `t` on, while the view is
  -- `v` before each of them: its own result while the bytes so far are within the budget, and then
  -- a failure without a call.
  pub data Rows : ℕ → X → ℕ → List (ℤ × K) → List (ℤ × RefetchResult) → Type 0 where
    no_more : (t : ℕ) (x : X) (total : ℕ) → Rows t x total [] []
    taken :
        (t : ℕ) (x : X) (total : ℕ) (row : ℤ) (key : K) (rows : List (ℤ × K))
        (read : List (ℤ × RefetchResult)) (a : RefetchResult × X × ℕ)
        → (now t).view_gen ≡ v
        → total ≤ max_copy_budget_bytes
        → Read key (t + 1) x a
        → Rows a.2 a.1 (total + result_bytes a.0) rows read
        → Rows t x total ((row, key) ∷ rows) ((row, a.0) ∷ read)
    skipped :
        (t : ℕ) (x : X) (total : ℕ) (row : ℤ) (key : K) (rows : List (ℤ × K))
        (read : List (ℤ × RefetchResult))
        → (now t).view_gen ≡ v
        → max_copy_budget_bytes < total
        → Rows (t + 1) x total rows read
        → Rows t x total ((row, key) ∷ rows) ((row, failed_refetch budget_exceeded) ∷ read)

  -- The view has moved on before one of the rows.
  pub data Overtaken : ℕ → X → ℕ → List (ℤ × K) → Type 0 where
    now_stale :
        (t : ℕ) (x : X) (total : ℕ) (row : ℤ) (key : K) (rows : List (ℤ × K))
        → (now t).view_gen ≢ v
        → Overtaken t x total ((row, key) ∷ rows)
    after_read :
        (t : ℕ) (x : X) (total : ℕ) (row : ℤ) (key : K) (rows : List (ℤ × K))
        (a : RefetchResult × X × ℕ)
        → total ≤ max_copy_budget_bytes
        → Read key (t + 1) x a
        → Overtaken a.2 a.1 (total + result_bytes a.0) rows
        → Overtaken t x total ((row, key) ∷ rows)
    after_skip :
        (t : ℕ) (x : X) (total : ℕ) (row : ℤ) (key : K) (rows : List (ℤ × K))
        → max_copy_budget_bytes < total
        → Overtaken (t + 1) x total rows
        → Overtaken t x total ((row, key) ∷ rows)

  pub Rows-rows_of :
      {t : ℕ} {x : X} {total : ℕ} {rows : List (ℤ × K)} {read : List (ℤ × RefetchResult)}
      → Rows t x total rows read
      → rows_of read ≡ rows_of rows
  Rows-rows_of (no_more t x total) = refl
  Rows-rows_of (taken t x total row key rows read a e le r h) =
      ap (λ numbers. row ∷ numbers) (Rows-rows_of h)
  Rows-rows_of (skipped t x total row key rows read e more h) =
      ap (λ numbers. row ∷ numbers) (Rows-rows_of h)

  -- What the rows one after another come to, behind the batch `b`.
  pub record Finished (t : ℕ) (x : X) (total : ℕ) (rows : List (ℤ × K)) (b b' : Batch)
      : Type 0 where
    pub read : List (ℤ × RefetchResult)
    pub rows_read : Rows t x total rows read
    pub results : b'.results ≡ b.results ++ read
    pub is_counted : IsCounted b' (total + batch_bytes read)

  abbrev pub Refetched : ℕ → X → ℕ → List (ℤ × K) → Batch → Option Batch × X × ℕ → Type 0
  Refetched t x total rows b (none, x', clock) = Overtaken t x total rows
  Refetched t x total rows b (some b', x', clock) = Finished t x total rows b b'

  pub moved : (t : ℕ) → is_view_stale now v t ≡ true → (now t).view_gen ≢ v
  unfolding is_view_stale
  moved t e = λ same. ground arith

  pub current : (t : ℕ) → is_view_stale now v t ≡ false → (now t).view_gen ≡ v
  unfolding is_view_stale
  current t e = ground arith

  read_on :
      (t : ℕ) (x : X) (total : ℕ) (row : ℤ) (key : K) (rows : List (ℤ × K)) (b : Batch)
      (a : RefetchResult × X × ℕ) (o : Option Batch × X × ℕ)
      → (now t).view_gen ≡ v
      → total ≤ max_copy_budget_bytes
      → Read key (t + 1) x a
      → Refetched a.2 a.1 (total + result_bytes a.0) rows (add_row row a.0 b) o
      → Refetched t x total ((row, key) ∷ rows) b o
  unfolding add_row
  read_on t x total row key rows b a (none, x', c) e le r h =
      after_read t x total row key rows a le r h
  read_on t x total row key rows b a (some b', x', c) e le r h = record {
    read = (row, a.0) ∷ h.read;
    rows_read = taken t x total row key rows h.read a e le r h.rows_read;
    results = h.results ∙ append_assoc b.results ((row, a.0) ∷ []) h.read;
    is_counted = subst (λ n. IsCounted b' n) (omega arith) h.is_counted;
  }

  skip_on :
      (t : ℕ) (x : X) (total : ℕ) (row : ℤ) (key : K) (rows : List (ℤ × K)) (b : Batch)
      (o : Option Batch × X × ℕ)
      → (now t).view_gen ≡ v
      → max_copy_budget_bytes < total
      → Refetched (t + 1) x total rows (skip_row row b) o
      → Refetched t x total ((row, key) ∷ rows) b o
  skip_on t x total row key rows b (none, x', c) e more h = after_skip t x total row key rows more h
  skip_on t x total row key rows b (some b', x', c) e more h = record {
    read = (row, failed_refetch budget_exceeded) ∷ h.read;
    rows_read = skipped t x total row key rows h.read e more h.rows_read;
    results =
        h.results ∙ append_assoc b.results ((row, failed_refetch budget_exceeded) ∷ []) h.read;
    is_counted = subst (λ n. IsCounted b' n) (omega arith) h.is_counted;
  }

  pub refetch_all-Refetched :
      (rows : List (ℤ × K)) (b : Batch) (t : ℕ) (x : X) (total : ℕ)
      → IsCounted b total
      → Refetched t x total rows b (refetch_all src now v check rows b t x)
  unfolding refetch_all
  refetch_all-Refetched [] b t x total h = record {
    read = [];
    rows_read = no_more t x total;
    results = sym (append-nil b.results);
    is_counted = subst (λ n. IsCounted b n) (omega arith) h;
  }
  refetch_all-Refetched ((row, key) ∷ rows) b t x total h =
      let a =
        execute_with_interrupt_retry now (λ r. not r.success && is_cancellation r.error)
          (is_view_stale now v) 1 (src.refetch key check) (t + 1) x in
      let skip = refetch_all src now v check rows (skip_row row b) (t + 1) x in
      let rest = refetch_all src now v check rows (add_row row a.0 b) a.2 a.1 in
      let P = Refetched t x total ((row, key) ∷ rows) b in
      if_intro P (is_view_stale now v t) (none, x, t + 1) (if b.exceeded then skip else rest)
        (λ e. now_stale t x total row key rows (moved t e))
        (λ e.
          if_intro P b.exceeded skip rest
            (λ m. skip_on t x total row key rows b skip (current t e) (ground (arith, h.judged)) (
              refetch_all-Refetched rows (skip_row row b) (t + 1) x total
                (record { counted = h.counted; judged = h.judged })))
            (λ m.
              read_on t x total row key rows b a rest (current t e) (ground (arith, h.judged))
                (execute_with_interrupt_retry-Retried now _ (is_view_stale now v) 1
                  (src.refetch key check) (t + 1) x)
                (refetch_all-Refetched rows (add_row row a.0 b) a.2 a.1 (total + result_bytes a.0)
                  (add_row-IsCounted b row a.0 total h m))))
