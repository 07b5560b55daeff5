-- ===== src/Trace/Reader/Lines.antt =====
-- How the lines of a file are read.
use mathlib.Core.List.{append_assoc, append-nil}
use blindfold.Prelude.Selection.{filter, filter-append}
use blindfold.Prelude.{
  ℕ, ◌≤◌, ◌≡◌, ◌≢◌, refl, sym, subst, ap, ◌∙◌, inl, inr, arith, false, none, some, ltb, ◌==◌,
  Bool-cases, List, [], ◌∷◌, ◌++◌, length, All,
}
use blindfold.Trace.Record.{Bytes, Record, validate, is_filled}
use blindfold.Trace.Store.{present, Result, ok, err, Json}
use blindfold.Trace.Store.Bounds.{IsSealed}
use blindfold.Trace.Reader.{first_byte, split, both, accept, accept_parsed, read_lines, read_entry}

-- Results of reading are put together like lists.
pub both_assoc : (a b c : Result (List Record)) → both (both a b) c ≡ both a (both b c)
both_assoc (ok xs) (ok ys) (ok zs) = ap ok (append_assoc xs ys zs)
both_assoc (ok xs) (ok ys) (err e) = refl
both_assoc (ok xs) (err e) c = refl
both_assoc (err e) b c = refl

pub both-nil : (a : Result (List Record)) → both a (ok []) ≡ a
both-nil (ok xs) = ap ok (append-nil xs)
both-nil (err e) = refl

pub nil-both : (a : Result (List Record)) → both (ok []) a ≡ a
nil-both (ok xs) = refl
nil-both (err e) = refl

first_byte-filled : (b : ℕ) (lines : List Bytes) → first_byte b lines ≢ []
first_byte-filled b [] n = cc
first_byte-filled b (line ∷ lines) n = cc

split-filled : (text : Bytes) → split text ≢ []
unfolding split
split-filled [] n = cc
split-filled (b ∷ text) n = elim (Bool-cases (b == 10)) [
  | inl t ↦ cc (rw t at n)
  | inr f ↦ first_byte-filled b (split text) (rw f at n)
]

first_byte-append :
    (b : ℕ) (xs ys : List Bytes) → xs ≢ [] → first_byte b (xs ++ ys) ≡ first_byte b xs ++ ys
first_byte-append b [] ys n = absurd (n refl)
first_byte-append b (line ∷ lines) ys n = refl

split-append : (xs ys : Bytes) → split (xs ++ (10 ∷ ys)) ≡ split xs ++ split ys
unfolding split
split-append [] ys = refl
split-append (b ∷ xs) ys = elim (Bool-cases (b == 10)) [
  | inl t ↦ rw t (ap (λ l. [] ∷ l) (split-append xs ys))
  | inr f ↦ rw f (
      ap (first_byte b) (split-append xs ys)
      ∙ first_byte-append b (split xs) (split ys) (split-filled xs))
]

abbrev pub IsOneLine : Bytes → Type 0
IsOneLine = All (λ b. b ≢ 10)

split-one_line : (line : Bytes) → IsOneLine line → split line ≡ line ∷ []
unfolding split
split-one_line [] h = refl
split-one_line (b ∷ line) h =
    let other : (b == 10) ≡ false = ground (arith, h.0) in
    rw other (ap (first_byte b) (split-one_line line h.1))

-- The lines of a file that are read.
abbrev pub lines_of : Bytes → List Bytes
lines_of bytes = filter is_filled (split bytes)

pub lines_of-append : (xs ys : Bytes) → lines_of (xs ++ (10 ∷ ys)) ≡ lines_of xs ++ lines_of ys
lines_of-append xs ys =
    ap (filter is_filled) (split-append xs ys) ∙ filter-append is_filled (split xs) (split ys)

pub lines_of-one_line : (line : Bytes) → line ≢ [] → IsOneLine line → lines_of line ≡ line ∷ []
unfolding filter
lines_of-one_line [] n h = absurd (n refl)
lines_of-one_line (b ∷ line) n h = ap (filter is_filled) (split-one_line (b ∷ line) h)

pub lines_of-sealed :
    (old line : Bytes)
    → IsSealed old
    → line ≢ []
    → IsOneLine line
    → lines_of (old ++ (line ++ 10 ∷ [])) ≡ lines_of old ++ (line ∷ [])
unfolding filter split
lines_of-sealed old line sealed n h =
    let last : lines_of (line ++ 10 ∷ []) ≡ line ∷ [] =
      lines_of-append line [] ∙ append-nil (lines_of line) ∙ lines_of-one_line line n h in
    elim sealed [
      | inl e ↦
          subst (λ o. lines_of (o ++ (line ++ 10 ∷ [])) ≡ lines_of o ++ (line ∷ [])) (sym e) last
      | inr (init, e) ↦
          ap (λ o. lines_of (o ++ (line ++ 10 ∷ []))) e
          ∙ ap lines_of (append_assoc init (10 ∷ []) (line ++ 10 ∷ []))
          ∙ lines_of-append init (line ++ 10 ∷ [])
          ∙ (λ i. lines_of init ++ last i)
          ∙ ap (λ l. l ++ (line ∷ []))
              (sym (append-nil (lines_of init)) ∙ sym (lines_of-append init []))
          ∙ ap (λ o. lines_of o ++ (line ∷ [])) (sym e)
    ]

module _ (json : Json) where
  pub read_lines-append :
      (xs ys : List Bytes)
      → read_lines json (xs ++ ys) ≡ both (read_lines json xs) (read_lines json ys)
  unfolding read_lines
  read_lines-append [] ys = sym (nil-both (read_lines json ys))
  read_lines-append (x ∷ xs) ys =
      ap (both (accept_parsed (json.from_slice x))) (read_lines-append xs ys)
      ∙ sym
          (both_assoc (accept_parsed (json.from_slice x)) (read_lines json xs) (read_lines json ys))

  -- What a line has to be for its record.
  pub record IsWritten (r : Record) (line : Bytes) : Type 0 where
    pub written : json.to_json r ≡ some line
    pub parsed : json.from_slice line ≡ some r
    pub valid : validate r ≡ none
    pub filled : line ≢ []
    pub one_line : IsOneLine line

  pub read_line :
      (r : Record) (line : Bytes) → IsWritten r line → read_lines json (line ∷ []) ≡ ok (r ∷ [])
  unfolding read_lines
  read_line r line w =
      both-nil (accept_parsed (json.from_slice line))
      ∙ ap accept_parsed w.parsed
      ∙ ap (accept r) w.valid

  pub read_entry-present :
      (max_bytes : ℕ) (bytes : Bytes)
      → length bytes ≤ max_bytes
      → read_entry json max_bytes (present bytes) ≡ read_lines json (lines_of bytes)
  unfolding read_entry
  read_entry-present max_bytes bytes h =
      let small : ltb max_bytes (length bytes) ≡ false = ground arith in rw small
