-- ===== src/Sqlite/Quoting.antt =====
-- A quoted name against the rule by which SQL reads one.
use data_table_viewer.Prelude.{
  ℕ, false, [], ◌∷◌, ◌++◌, Option, none, some, ◌≡◌, refl, sym, ap, ◌∙◌, append_assoc, Bool-cases,
  inl, inr, arith, ◌==◌, if◌then◌else◌, Bytes,
}
use data_table_viewer.Sqlite.{escape_sql_identifier, quote_identifier}

-- A name put in front of what has been read.
abbrev pub with_byte : ℕ → Option (Bytes × Bytes) → Option (Bytes × Bytes)
with_byte c none = none
with_byte c (some (name, rest)) = some (c ∷ name, rest)

-- The SQL rule, behind the opening quote: two quotes are one of the name, and one alone ends it.
unfoldable pub read_quoted : Bytes → Option (Bytes × Bytes)
read_quoted [] = none
read_quoted (c ∷ []) = if c == b'"' then some ([], []) else none
read_quoted (c ∷ e ∷ text) =
    let doubled = with_byte b'"' (read_quoted text) in
    let plain = with_byte c (read_quoted (e ∷ text)) in
    if c == b'"' then (if e == b'"' then doubled else some ([], e ∷ text)) else plain

unfoldable pub read_identifier : Bytes → Option (Bytes × Bytes)
read_identifier [] = none
read_identifier (c ∷ text) = if c == b'"' then read_quoted text else none

-- What follows a name does not begin with a quote.
abbrev pub NoQuote : Bytes → Type 0
NoQuote [] = Unit
NoQuote (c ∷ rest) = (c == b'"') ≡ false

read_end : (rest : Bytes) → NoQuote rest → read_quoted (b'"' ∷ rest) ≡ some ([], rest)
unfolding read_quoted
read_end [] h = refl
read_end (c ∷ rest) h = rw h refl

read_plain :
    (c : ℕ) (text : Bytes)
    → (c == b'"') ≡ false
    → read_quoted (c ∷ text) ≡ with_byte c (read_quoted text)
unfolding read_quoted
read_plain c [] h = rw h refl
read_plain c (e ∷ text) h = rw h refl

read_doubled : (text : Bytes) → read_quoted (b'"' ∷ b'"' ∷ text) ≡ with_byte b'"' (read_quoted text)
unfolding read_quoted
read_doubled text = refl

read_quoted-escape :
    (name rest : Bytes)
    → NoQuote rest
    → read_quoted (escape_sql_identifier name ++ b'"' ∷ rest) ≡ some (name, rest)
unfolding escape_sql_identifier
read_quoted-escape [] rest h = read_end rest h
read_quoted-escape (c ∷ name) rest h = elim (Bool-cases (c == b'"')) [
  | inl e ↦
      let quote : c ≡ b'"' = ground arith in
      simp e (
        read_doubled (escape_sql_identifier name ++ b'"' ∷ rest)
        ∙ ap (with_byte b'"') (read_quoted-escape name rest h)
        ∙ ap (λ x. some (x ∷ name, rest)) (sym quote))
  | inr e ↦ simp e (read_plain c _ e ∙ ap (with_byte c) (read_quoted-escape name rest h))
]

-- A quoted name is read back, whatever it holds, with all that follows it, if that does not begin
-- with a quote: no name ends its quotes early.
pub read_identifier-quote_identifier :
    (name rest : Bytes)
    → NoQuote rest
    → read_identifier (quote_identifier name ++ rest) ≡ some (name, rest)
unfolding read_identifier quote_identifier
read_identifier-quote_identifier name rest h =
    ap read_quoted (append_assoc (escape_sql_identifier name) (b'"' ∷ []) rest)
    ∙ read_quoted-escape name rest h
