-- ===== src/Diff/Builtin/Bounds.antt =====
-- The columns of the built-in detector.
use blindfold.Prelude.{
  subst, All, ℕ, ◌+◌, ◌≡◌, ◌≤◌, refl, Bool, true, false, Option, none, some, List, [], ◌∷◌, ◌++◌,
  arith, Bool-cases, inl, inr, if◌then◌else◌, map, codes,
}
use blindfold.Core.SafeRef.{Text}
use blindfold.Diff.Text.{split_once}
use blindfold.Diff.Scan.Paths.{PathRisk, environment_file, contains}
use blindfold.Diff.Scan.{Detection, AddedLine}
use blindfold.Diff.Builtin.{
  by_key, by_url, by_token, by_assignment, detect_masked, detect_builtin, assignment_detection,
}
use blindfold.Diff.Builtin.Encoding.{utf8, byte_length, offset, find}
use blindfold.Diff.Builtin.Encoding.Laws.{
  byte_length-append, byte_length-cons, byte_length-filled, byte_length-to_lower,
}
use blindfold.Diff.Builtin.Masking.{mask_safe_refs}
use blindfold.Diff.Builtin.Tokens.{
  to_ascii_lowercase, find_ascii_case_insensitive, url_column, url_authority, credential_url_column,
  is_separator, is_jwt, jwt_from, jwt_column, token_at, token_of, or_next, provider_token_column,
}
use blindfold.Diff.Builtin.Assignments.{
  trim, is_empty, value_of, assignment, or_split, credential_assignment, is_placeholder,
}
use blindfold.Diff.Builtin.Masking.Lengths.{split_once-length, mask_safe_refs-length}

-- The column of a detection, if there is one, is one of `size` bytes.
abbrev pub IsInLine : ℕ → Option Detection → Type 0
IsInLine size none = Unit
IsInLine size (some d) = (1 ≤ d.column) × (d.column ≤ size)

abbrev column_of : Option (ℕ × Text) → Option ℕ
column_of none = none
column_of (some (column, value)) = some column

-- A column, if there is one, is one of `size` bytes.
abbrev pub Within : ℕ → Option ℕ → Type 0
Within size none = Unit
Within size (some column) = (1 ≤ column) × (column ≤ size)

if-Within :
    (size column : ℕ) (test : Bool)
    → Within size (some column)
    → Within size (if test then some column else none)
if-Within size column true h = h
if-Within size column false h = tt

is_jwt-filled : (token : Text) → is_jwt token ≡ true → 1 ≤ byte_length token
unfolding is_jwt
is_jwt-filled [] h = cc
is_jwt-filled (c ∷ token) h = byte_length-filled c token

jwt_from-Within :
    (size start : ℕ) (token text : Text)
    → start + byte_length token + byte_length text ≤ size
    → Within size (jwt_from start token text)
unfolding jwt_from
jwt_from-Within size start token [] k = elim (Bool-cases (is_jwt token)) [
  | inl t ↦ rw t (omega arith, omega (arith, k, is_jwt-filled token t))
  | inr f ↦ rw f tt
]
jwt_from-Within size start token (c ∷ text) k = elim (Bool-cases (is_separator c)) [
  | inl s ↦ elim (Bool-cases (is_jwt token)) [
    | inl t ↦ rw (s, t) (omega arith, omega (arith, k, is_jwt-filled token t))
    | inr f ↦
        rw (s, f)
          (jwt_from-Within size (start + byte_length token + 1) [] text
            (omega (arith, k, byte_length-cons c text, byte_length-filled c [])))
  ]
  | inr f ↦ rw f (
      jwt_from-Within size start (token ++ (c ∷ [])) text
        (omega (arith, k, byte_length-cons c text, byte_length-append token (c ∷ []))))
]

module _ (content : Text) where
  url_column-Within :
      (before authority : Text) (o : Option (Text × Text))
      → byte_length content ≡ byte_length before + 3 + byte_length authority
      → split_once authority (codes "@") ≡ o
      → Within (byte_length content) (url_column before o)
  unfolding byte_length utf8
  url_column-Within before authority none size h = tt
  url_column-Within before authority (some (credentials, host)) size h =
      let rest = split_once-length authority (codes "@") credentials host h in
      if-Within (byte_length content) (byte_length before + 4) (contains credentials (codes ":"))
        (omega arith, omega (arith, size, rest))

  url-Within :
      (o : Option (Text × Text))
      → split_once content (codes "://") ≡ o
      → Within (byte_length content) (url_authority o)
  unfolding byte_length utf8
  url-Within none h = tt
  url-Within (some (before, authority)) h =
      url_column-Within before authority (split_once authority (codes "@"))
        (split_once-length content (codes "://") before authority h) refl

  token_at-Within :
      (prefix : Text) (o : Option (Text × Text))
      → 1 ≤ byte_length prefix
      → split_once content prefix ≡ o
      → Within (byte_length content) (token_at prefix o)
  token_at-Within prefix none k h = tt
  token_at-Within prefix (some (before, behind)) k h =
      if-Within (byte_length content) (byte_length before + 1) _
        (omega arith, omega (arith, k, split_once-length content prefix before behind h))

  or_next-Within :
      (o next : Option ℕ)
      → Within (byte_length content) o
      → Within (byte_length content) next
      → Within (byte_length content) (or_next o next)
  or_next-Within none next h k = k
  or_next-Within (some column) next h k = h

  token_of-Within :
      (prefixes : List Text)
      → All (λ p. 1 ≤ byte_length p) prefixes
      → Within (byte_length content) (token_of content prefixes)
  unfolding token_of jwt_column
  token_of-Within [] k = jwt_from-Within (byte_length content) 0 [] content (omega arith)
  token_of-Within (prefix ∷ prefixes) k =
      or_next-Within (token_at prefix (split_once content prefix)) (token_of content prefixes)
        (token_at-Within prefix (split_once content prefix) k.0 refl) (token_of-Within prefixes k.1)

  refused : (b : Bool) → Within (byte_length content) (column_of (if b then none else none))
  refused true = tt
  refused false = tt

  accepted :
      (b b' : Bool) (column : ℕ) (value : Text)
      → Within (byte_length content) (some column)
      → Within
          (byte_length content)
          (column_of (if b then none else if b' then none else some (column, value)))
  accepted true b' column value h = tt
  accepted false true column value h = tt
  accepted false false column value h = h

  assignment-Within :
      (separator : ℕ) (o : Option (Text × Text))
      → split_once content (separator ∷ []) ≡ o
      → Within (byte_length content) (column_of (assignment o))
  unfolding value_of
  assignment-Within separator none h = tt
  assignment-Within separator (some (before, [])) h = refused _
  assignment-Within separator (some (before, c ∷ behind)) h =
      accepted _ _ (byte_length before + 2) (value_of (c ∷ behind)) (
        omega arith,
        omega (
          arith,
          split_once-length content (separator ∷ []) before (c ∷ behind) h,
          byte_length-filled c behind,
          byte_length-filled separator [],
        ),
      )

  or_split-Within :
      (o : Option (Text × Text))
      → split_once content (codes "=") ≡ o
      → Within
          (byte_length content)
          (column_of (assignment (or_split o (split_once content (codes ":")))))
  or_split-Within none h = assignment-Within 58 (split_once content (codes ":")) refl
  or_split-Within (some found) h = assignment-Within 61 (some found) h

  module _ (risk : PathRisk) where
    assignment_column : (column : ℕ) → (assignment_detection risk column).column ≡ column
    assignment_column column = elim risk as (λ r. (assignment_detection r column).column ≡ column) [
      | environment_file ↦ refl
      | _ ↦ refl
    ]

    by_assignment-IsInLine :
        (o : Option (ℕ × Text))
        → Within (byte_length content) (column_of o)
        → IsInLine (byte_length content) (by_assignment risk o)
    by_assignment-IsInLine none h = tt
    by_assignment-IsInLine (some (column, value)) h = elim (Bool-cases (is_placeholder value)) [
      | inl t ↦ rw t tt
      | inr f ↦ rw (f, assignment_column column) h
    ]

    by_token-IsInLine :
        (o : Option ℕ)
        → Within (byte_length content) o
        → IsInLine (byte_length content) (by_token risk content o)
    unfolding credential_assignment
    by_token-IsInLine none h =
        by_assignment-IsInLine (credential_assignment content)
          (or_split-Within (split_once content (codes "=")) refl)
    by_token-IsInLine (some column) h = h

    by_url-IsInLine :
        (o : Option ℕ)
        → Within (byte_length content) o
        → IsInLine (byte_length content) (by_url risk content o)
    unfolding provider_token_column
    by_url-IsInLine none h = by_token-IsInLine (provider_token_column content) (
        token_of-Within
          (map codes ("AKIA" ∷ "ASIA" ∷ "ghp_" ∷ "github_pat_" ∷ "xoxb-" ∷ "xoxp-" ∷ "sk-" ∷ []))
          (ground arith))
    by_url-IsInLine (some column) h = h

    by_key-IsInLine :
        (o : Option (Text × Text))
        → split_once (to_ascii_lowercase content) (codes "-----begin private key-----") ≡ o
        → IsInLine (byte_length content) (by_key risk content (offset o))
    unfolding credential_url_column
    by_key-IsInLine none h =
        by_url-IsInLine (credential_url_column content)
          (url-Within (split_once content (codes "://")) refl)
    by_key-IsInLine (some (before, behind)) h = (
      omega arith,
      omega (
        arith,
        split_once-length (to_ascii_lowercase content) (codes "-----begin private key-----") before
            behind h,
        byte_length-to_lower content,
        byte_length-filled 45 (codes "----begin private key-----"),
      ),
    )

  detect_masked-IsInLine :
      (risk : PathRisk) → IsInLine (byte_length content) (detect_masked risk content)
  unfolding detect_masked find_ascii_case_insensitive find
  detect_masked-IsInLine risk =
      by_key-IsInLine risk
        (split_once (to_ascii_lowercase content) (codes "-----begin private key-----")) refl

skipped :
    (size : ℕ) (b : Bool) (o : Option Detection)
    → IsInLine size o
    → IsInLine size (if b then none else o)
skipped size true o h = tt
skipped size false o h = h

-- The column of a detection of the built-in detector is that of a byte of the line, once white space
-- around the line is trimmed: it is at least 1 and at most the number of bytes.
pub detect_builtin-IsInLine :
    (line : AddedLine) → IsInLine (byte_length (trim line.content)) (detect_builtin line)
unfolding detect_builtin
detect_builtin-IsInLine line =
    let content = trim line.content in
    let masked = mask_safe_refs content in
    skipped (byte_length content) (is_empty content) (detect_masked line.path_risk masked) (
      subst (λ n. IsInLine n (detect_masked line.path_risk masked)) (mask_safe_refs-length content)
        (detect_masked-IsInLine masked line.path_risk))
