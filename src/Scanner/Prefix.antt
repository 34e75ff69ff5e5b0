-- ===== src/Scanner/Prefix.antt =====
-- The first three bytes of a source, in whatever chunks they come.
use data_table_viewer.Prelude.{
  ℕ, zero, suc, ◌+◌, ◌-◌, ◌≤◌, ◌<◌, true, false, [], ◌∷◌, ◌++◌, List, ◌≡◌, refl, ap, ◌∙◌, length,
  length-drop, Bytes, arith, take, drop, min, Bool-cases, inl, inr, append-nil, dec_lt,
}
use data_table_viewer.Scanner.{Callbacks, is_bom}
use data_table_viewer.Scanner.Machine.{Machine, fresh, step, run, read_prefix}

pub take-min : {A : Type 0} (n : ℕ) (xs : List A) → take (min n (length xs)) xs ≡ take n xs
take-min zero xs = let e : min 0 (length xs) ≡ 0 = omega arith in rw e
take-min (suc n) [] = let e : min (suc n) 0 ≡ 0 = omega arith in rw e
take-min (suc n) (x ∷ xs) =
    let e : min (suc n) (suc (length xs)) ≡ suc (min n (length xs)) = omega arith in
    rw e (ap (◌∷◌ x) (take-min n xs))

pub drop-min : {A : Type 0} (n : ℕ) (xs : List A) → drop (min n (length xs)) xs ≡ drop n xs
drop-min zero xs = let e : min 0 (length xs) ≡ 0 = omega arith in rw e
drop-min (suc n) [] = let e : min (suc n) 0 ≡ 0 = omega arith in rw e
drop-min (suc n) (x ∷ xs) =
    let e : min (suc n) (suc (length xs)) ≡ suc (min n (length xs)) = omega arith in
    rw e (drop-min n xs)

-- Filling a buffer of less than three bytes up to three.
pub buffer_filled :
    (pre chunk : Bytes)
    → length pre < 3
    → pre ++ take (3 - length pre) chunk ≡ take 3 (pre ++ chunk)
buffer_filled [] chunk h = refl
buffer_filled (a ∷ []) chunk h = refl
buffer_filled (a ∷ b ∷ []) chunk h = refl
buffer_filled (a ∷ b ∷ c ∷ pre) chunk h = absurd (omega arith)

pub rest_filled :
    (pre chunk : Bytes) → length pre < 3 → drop (3 - length pre) chunk ≡ drop 3 (pre ++ chunk)
rest_filled [] chunk h = refl
rest_filled (a ∷ []) chunk h = refl
rest_filled (a ∷ b ∷ []) chunk h = refl
rest_filled (a ∷ b ∷ c ∷ pre) chunk h = absurd (omega arith)

pub offset_filled :
    (pre chunk : Bytes)
    → length pre < 3
    → length pre + min (3 - length pre) (length chunk) ≡ min 3 (length pre + length chunk)
offset_filled pre chunk h = omega arith

pub is_bom-append : (pre chunk : Bytes) → 3 ≤ length pre → is_bom (pre ++ chunk) ≡ is_bom pre
unfolding is_bom
is_bom-append [] chunk h = absurd (omega arith)
is_bom-append (a ∷ []) chunk h = absurd (omega arith)
is_bom-append (a ∷ b ∷ []) chunk h = absurd (omega arith)
is_bom-append (a ∷ b ∷ c ∷ pre) chunk h = refl

pub is_bom-short : (bytes : Bytes) → length bytes < 3 → is_bom bytes ≡ false
unfolding is_bom
is_bom-short [] h = refl
is_bom-short (a ∷ []) h = refl
is_bom-short (a ∷ b ∷ []) h = refl
is_bom-short (a ∷ b ∷ c ∷ pre) h = absurd (omega arith)

pub drop-append : (n : ℕ) (xs ys : Bytes) → n ≤ length xs → drop n (xs ++ ys) ≡ drop n xs ++ ys
drop-append zero xs ys h = refl
drop-append (suc n) [] ys h = absurd (omega arith)
drop-append (suc n) (x ∷ xs) ys h = drop-append n xs ys (omega arith)

pub drop_all : (n : ℕ) (xs : Bytes) → length xs ≤ n → drop n xs ≡ []
drop_all zero [] h = refl
drop_all zero (x ∷ xs) h = absurd (omega arith)
drop_all (suc n) [] h = refl
drop_all (suc n) (x ∷ xs) h = drop_all n xs (omega arith)

pub take_all : (n : ℕ) (xs : Bytes) → length xs ≤ n → take n xs ≡ xs
take_all zero [] h = refl
take_all zero (x ∷ xs) h = absurd (omega arith)
take_all (suc n) [] h = refl
take_all (suc n) (x ∷ xs) h = ap (◌∷◌ x) (take_all n xs (omega arith))

pub is_bom-length : (bytes : Bytes) → is_bom bytes ≡ true → 3 ≤ length bytes
unfolding is_bom
is_bom-length [] h = cc
is_bom-length (a ∷ []) h = cc
is_bom-length (a ∷ b ∷ []) h = cc
is_bom-length (a ∷ b ∷ c ∷ pre) h = omega arith

module _ {S : Type 0} (cb : Callbacks S) where
  pub run-append :
      (d : ℕ) (m : Machine S) (offset : ℕ) (a b : Bytes)
      → run cb d m offset (a ++ b) ≡ run cb d (run cb d m offset a) (offset + length a) b
  unfolding run
  run-append d m offset [] b = let e : offset + 0 ≡ offset = omega arith in rw e
  run-append d m offset (c ∷ a) b =
      let e : offset + suc (length a) ≡ offset + 1 + length a = omega arith in
      rw e (run-append d (step cb d m offset c) (offset + 1) a b)

  -- More bytes behind the first three.
  pub read_prefix-append :
      (d : ℕ) (s : S) (pre chunk : Bytes)
      → 3 ≤ length pre
      → read_prefix cb d s (pre ++ chunk) ≡ run cb d (read_prefix cb d s pre) (length pre) chunk
  unfolding read_prefix
  read_prefix-append d s pre chunk h = elim (Bool-cases (is_bom pre)) [
    | inl e ↦
        rw (is_bom-append pre chunk h, e, drop-append 3 pre chunk h)
          (run-append d (fresh 3 s) 3 (drop 3 pre) chunk
            ∙ ap (λ o. run cb d (run cb d (fresh 3 s) 3 (drop 3 pre)) o chunk)
                (omega (arith, length-drop 3 pre)))
    | inr e ↦
        rw (is_bom-append pre chunk h, e)
          (run-append d (fresh 0 s) 0 pre chunk
            ∙ ap (λ o. run cb d (run cb d (fresh 0 s) 0 pre) o chunk) (omega arith))
  ]

  pub read_prefix-bom :
      (d : ℕ) (s : S) (bytes : Bytes)
      → is_bom bytes ≡ true
      → length bytes ≤ 3
      → read_prefix cb d s bytes ≡ fresh 3 s
  unfolding read_prefix run
  read_prefix-bom d s bytes e n = rw (e, drop_all 3 bytes n)

  pub read_prefix-plain :
      (d : ℕ) (s : S) (bytes : Bytes)
      → is_bom bytes ≡ false
      → read_prefix cb d s bytes ≡ run cb d (fresh 0 s) 0 bytes
  unfolding read_prefix
  read_prefix-plain d s bytes e = rw e

  -- The bytes behind a buffer that is full, or that the source ends in.
  pub read_prefix-filled :
      (d : ℕ) (s : S) (b rest : Bytes)
      → (length b < 3 → rest ≡ [])
      → read_prefix cb d s (b ++ rest) ≡ run cb d (read_prefix cb d s b) (length b) rest
  unfolding run
  read_prefix-filled d s b rest short = elim (dec_lt (length b) 3) [
    | yes p ↦ rw (short p, append-nil) refl
    | no p ↦ read_prefix-append d s b rest (omega arith)
  ]

  pub read_prefix-empty : (d : ℕ) (s : S) → read_prefix cb d s [] ≡ fresh 0 s
  unfolding read_prefix run is_bom
  read_prefix-empty d s = refl
