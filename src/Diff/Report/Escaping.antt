-- ===== src/Diff/Report/Escaping.antt =====
-- What is escaped is read back.
use mathlib.Core.List.{append_assoc}
use blindfold.Prelude.{
  ==_iff, ℕ, zero, suc, ◌+◌, ◌-◌, ◌*◌, ◌/◌, ◌%◌, ◌≡◌, ◌≤◌, refl, sym, ap, ◌∙◌, true, ◌&&◌, ◌||◌,
  Option, none, some, [], ◌∷◌, ◌++◌, arith, leb, ◌==◌, Bool-cases, inl, inr, if◌then◌else◌,
}
use blindfold.Core.SafeRef.{Text}
use blindfold.Diff.Report.{hex_digit, escape_char, escape_json}

-- A reader of what stands between the quotation marks of a JSON string (RFC 8259): the value, and
-- what is behind the closing quotation mark.
abbrev hex_value : ℕ → Option ℕ
hex_value c =
    if leb 48 c && leb c 57
    then some (c - 48)
    else if leb 97 c && leb c 102
    then some (c - 87)
    else if leb 65 c && leb c 70
    then some (c - 55)
    else none

abbrev simple_escape : ℕ → Option ℕ
simple_escape c =
    if c == 34 || (c == 92 || c == 47)
    then some c
    else if c == 98
    then some 8
    else if c == 102
    then some 12
    else if c == 110
    then some 10
    else if c == 114
    then some 13
    else if c == 116
    then some 9
    else none

abbrev pub prepend : Option ℕ → Option (Text × Text) → Option (Text × Text)
prepend none rest = none
prepend (some c) none = none
prepend (some c) (some (value, behind)) = some (c ∷ value, behind)

-- Between characters, behind a backslash, or among the digits of a character, with the number of
-- digits that follow the next one and the value so far.
pub data Reading : Type 0 where
  plain escaped : Reading
  digits : ℕ → ℕ → Reading

abbrev shifted : ℕ → Option ℕ → Option ℕ
shifted value none = none
shifted value (some d) = some (value * 16 + d)

unfoldable pub read_string : Reading → Text → Option (Text × Text)
read_string reading [] = none
read_string plain (c ∷ text) =
    let next = prepend (some c) (read_string plain text) in
    let after = read_string escaped text in
    if c == 34 then some ([], text) else if c == 92 then after else if leb c 31 then none else next
read_string escaped (c ∷ text) =
    let next = prepend (simple_escape c) (read_string plain text) in
    let code = read_string (digits 3 0) text in if c == 117 then code else next
read_string (digits zero value) (c ∷ text) =
    prepend (shifted value (hex_value c)) (read_string plain text)
read_string (digits (suc n) value) (c ∷ text) = elim (hex_value c) [
  | none ↦ none
  | some d ↦ read_string (digits n (value * 16 + d)) text
]

hex_value-hex_digit : (n : ℕ) → n ≤ 15 → hex_value (hex_digit n) ≡ some n
unfolding hex_digit
hex_value-hex_digit n h = ground arith

read_string-code :
    (c : ℕ) (text : Text)
    → c ≤ 31
    → read_string plain (92 ∷ 117 ∷ 48 ∷ 48 ∷ hex_digit (c / 16) ∷ hex_digit (c % 16) ∷ text)
      ≡ prepend (some c) (read_string plain text)
unfolding read_string
read_string-code c text h =
    let value : c / 16 * 16 + c % 16 ≡ c = omega arith in
    rw (hex_value-hex_digit (c / 16) (omega arith), hex_value-hex_digit (c % 16) (omega arith))
      (ap (λ x. prepend (some x) (read_string plain text)) (omega arith))

-- An escaped character is read as the character.
read_string-escape_char :
    (c : ℕ) (text : Text)
    → read_string plain (escape_char c ++ text) ≡ prepend (some c) (read_string plain text)
unfolding read_string
read_string-escape_char c text =
    let same : (k : ℕ)
        → (c == k) ≡ true
        → prepend (some k) (read_string plain text) ≡ prepend (some c) (read_string plain text) =
      (λ k e. ap (λ x. prepend (some x) (read_string plain text)) (sym ((==_iff c k).0 e))) in
    elim (Bool-cases (c == 34)) [
      | inl e ↦ rw e (same 34 e)
      | inr quote ↦ elim (Bool-cases (c == 92)) [
        | inl e ↦ rw (quote, e) (same 92 e)
        | inr slash ↦ elim (Bool-cases (c == 10)) [
          | inl e ↦ rw (quote, slash, e) (same 10 e)
          | inr feed ↦ elim (Bool-cases (c == 13)) [
            | inl e ↦ rw (quote, slash, feed, e) (same 13 e)
            | inr return ↦ elim (Bool-cases (c == 9)) [
              | inl e ↦ rw (quote, slash, feed, return, e) (same 9 e)
              | inr tab ↦ elim (Bool-cases (leb c 31)) [
                | inl e ↦
                    rw (quote, slash, feed, return, tab, e)
                      (read_string-code c text (ground (arith, e)))
                | inr e ↦ rw (quote, slash, feed, return, tab, e, quote, slash, e) refl
              ]
            ]
          ]
        ]
      ]
    ]

-- What `escape_json` writes is, with a quotation mark behind it, read as the text that was escaped by
-- a reader of JSON strings, which ends at that quotation mark.
pub read_string-escape_json :
    (value behind : Text)
    → read_string plain (escape_json value ++ (34 ∷ behind)) ≡ some (value, behind)
unfolding escape_json
read_string-escape_json [] behind = unfold read_string in refl
read_string-escape_json (c ∷ value) behind =
    ap (read_string plain) (append_assoc (escape_char c) (escape_json value) (34 ∷ behind))
    ∙ read_string-escape_char c (escape_json value ++ (34 ∷ behind))
    ∙ ap (prepend (some c)) (read_string-escape_json value behind)
