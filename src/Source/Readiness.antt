-- ===== src/Source/Readiness.antt =====
-- What the answers of `readiness` promise.
use data_table_viewer.Prelude.{
  ℕ, suc, ◌+◌, ◌^◌, ◌≤◌, ◌<◌, Bool, true, false, ◌||◌, ◌≡◌, refl, ◌⊎◌, inl, inr, arith, leb, leb→le,
  if◌then◌else◌, u64, u64-eq_of_lt,
}
use data_table_viewer.Prelude.Int.{pos}
use data_table_viewer.Index.{Index, is_complete}
use data_table_viewer.Source.{IndexReadiness, pending, ready, at_end, failed, readiness}

-- What each answer means for the page of `size` rows from row `first` on.
abbrev pub Promise : {F : Type 0} → Bool → Bool → Index F → ℕ → ℕ → IndexReadiness → Type 0
Promise source_changed scan_failed x first size pending =
    (is_complete x ≡ false) × (x.header.data_record_count < first + size)
Promise source_changed scan_failed x first size ready =
    (x.failed ≡ false)
    × (first < x.header.data_record_count)
    × ((is_complete x ≡ true) ⊎ (first + size ≤ x.header.data_record_count))
Promise source_changed scan_failed x first size at_end =
    (is_complete x ≡ true) × (x.header.data_record_count ≤ first)
Promise source_changed scan_failed x first size failed =
    (source_changed || x.failed || scan_failed) ≡ true

Promise-if :
    {F : Type 0} (source_changed scan_failed : Bool) (x : Index F) (first size : ℕ) (t : Bool)
    (a b : IndexReadiness)
    → (t ≡ true → Promise source_changed scan_failed x first size a)
    → (t ≡ false → Promise source_changed scan_failed x first size b)
    → Promise source_changed scan_failed x first size (if t then a else b)
Promise-if source_changed scan_failed x first size true a b p q = p refl
Promise-if source_changed scan_failed x first size false a b p q = q refl

-- For a page of at least one row, whose last row has a number below 2^64: the source is pending
-- only while it is not all indexed and the page is not; a page that is ready has a row, and all of
-- its rows while the source is not all indexed; the end is reported only of a source that is all
-- indexed, of rows behind its last; and the source fails only if it has changed, or its index or
-- its scan has failed.
pub readiness_lem :
    {F : Type 0} (source_changed scan_failed : Bool) (x : Index F) (first n : ℕ)
    → first + suc n < 2 ^ 64
    → Promise source_changed scan_failed x first
        (suc n)
        (readiness source_changed scan_failed x (pos first) (pos (suc n)))
unfolding readiness is_complete
readiness_lem source_changed scan_failed x first n h =
    let w = u64-eq_of_lt (first + suc n) h in
    let f = Promise-if source_changed scan_failed x first (suc n) in
    f (source_changed || x.failed || scan_failed) failed _ (λ e. e)
      (λ broken.
        f (leb (u64 (first + suc n)) x.header.data_record_count) ready _
          (λ e. (ground arith, omega (arith, leb→le _ _ e), inr (omega (arith, leb→le _ _ e))))
          (λ e.
            f (is_complete x) _ pending
              (λ c.
                f (leb x.header.data_record_count first) at_end ready (λ e'. (c, leb→le _ _ e'))
                  (λ e'. (ground arith, ground arith, inl c)))
              (λ c. (c, ground arith))))
