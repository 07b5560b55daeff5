-- ===== src/Trace/Record/Schema.antt =====
-- The records that `validate` lets pass, by an independent description of the schema.
use blindfold.Prelude.{
  ℕ, ◌≤◌, ◌<◌, ◌≡◌, ◌≢◌, ◌↔◌, refl, ap, ◌∙◌, ◌⊎◌, arith, Bool, true, none, List, [], ◌∷◌, ◌++◌,
  ◌==◌, &&_true, length, codes, All,
}
use blindfold.Trace.Record.{
  Bytes, protected, Replacement, Record, is_digit_byte, is_pointer_byte, is_request_byte, all_bytes,
  is_filled, has_tail, is_rooted, validate_replacement, validate_all, validate,
}

abbrev IsDigit : ℕ → Type 0
IsDigit b = (48 ≤ b) × (b ≤ 57)

abbrev IsUpper : ℕ → Type 0
IsUpper b = (65 ≤ b) × (b ≤ 90)

abbrev IsLower : ℕ → Type 0
IsLower b = (97 ≤ b) × (b ≤ 122)

-- Hexadecimal digits of either case, and the underscore.
abbrev pub IsRequestByte : ℕ → Type 0
IsRequestByte b = IsDigit b ⊎ (((65 ≤ b) × (b ≤ 70)) ⊎ (((97 ≤ b) × (b ≤ 102)) ⊎ (b ≡ 95)))

-- Letters, digits, and `/`, `_`, `-`, `~` and `*`.
abbrev pub IsPointerByte : ℕ → Type 0
IsPointerByte b =
    IsDigit b
    ⊎ (IsLower b ⊎ (IsUpper b ⊎ ((b ≡ 47) ⊎ ((b ≡ 95) ⊎ ((b ≡ 45) ⊎ ((b ≡ 126) ⊎ (b ≡ 42)))))))

-- A prefix, and at least one byte behind it, all of one kind.
pub record HasTail (P : ℕ → Type 0) (prefix text : Bytes) : Type 0 where
  pub tail : Bytes
  pub split : text ≡ prefix ++ tail
  pub filled : tail ≢ []
  pub all : All P tail

pub record IsValidReplacement (r : Replacement) : Type 0 where
  pub id : HasTail IsDigit (codes "S") r.id
  pub short : length r.pointer ≤ 256
  pub rooted : (rest : Bytes) × (r.pointer ≡ 47 ∷ rest)
  pub pointer : All IsPointerByte r.pointer
  pub occurs : 0 < r.occurrences

pub record IsValid (r : Record) : Type 0 where
  pub version : r.version ≡ 1
  pub short : length r.request_id ≤ 80
  pub request_id : HasTail IsRequestByte (codes "req_") r.request_id
  pub state : (r.coverage ≡ protected) ↔ (r.issue ≡ none)
  pub few : length r.replacements ≤ 1024
  pub replacements : All IsValidReplacement r.replacements

is_digit_byte_iff : (b : ℕ) → (is_digit_byte b ≡ true) ↔ IsDigit b
unfolding is_digit_byte
is_digit_byte_iff b = ground arith

is_request_byte_iff : (b : ℕ) → (is_request_byte b ≡ true) ↔ IsRequestByte b
unfolding is_request_byte
is_request_byte_iff b = ground arith

is_pointer_byte_iff : (b : ℕ) → (is_pointer_byte b ≡ true) ↔ IsPointerByte b
unfolding is_pointer_byte
is_pointer_byte_iff b = ground arith

module _ (p : ℕ → Bool) (P : ℕ → Type 0) (same : (b : ℕ) → (p b ≡ true) ↔ P b) where
  all_bytes-true : (text : Bytes) → all_bytes p text ≡ true → All P text
  unfolding all_bytes
  all_bytes-true [] h = tt
  all_bytes-true (b ∷ text) h =
      let (x, y) = &&_true (p b) (all_bytes p text) h in ((same b).0 x, all_bytes-true text y)

  all_bytes_of_All : (text : Bytes) → All P text → all_bytes p text ≡ true
  unfolding all_bytes
  all_bytes_of_All [] h = refl
  all_bytes_of_All (b ∷ text) h = rw ((same b).1 h.0, all_bytes_of_All text h.1)

  is_filled-true : (text : Bytes) → is_filled text ≡ true → text ≢ []
  is_filled-true [] h n = cc
  is_filled-true (b ∷ text) h n = cc

  is_filled_of_filled : (text : Bytes) → text ≢ [] → is_filled text ≡ true
  is_filled_of_filled [] h = absurd (h refl)
  is_filled_of_filled (b ∷ text) h = refl

  has_tail-HasTail : (prefix text : Bytes) → has_tail p prefix text ≡ true → HasTail P prefix text
  unfolding has_tail
  has_tail-HasTail [] text h =
      let (x, y) = &&_true (is_filled text) (all_bytes p text) h in
      record {
        tail = text;
        split = refl;
        filled = is_filled-true text x;
        all = all_bytes-true text y;
      }
  has_tail-HasTail (c ∷ prefix) [] h = cc
  has_tail-HasTail (c ∷ prefix) (b ∷ text) h =
      let (x, y) = &&_true (b == c) (has_tail p prefix text) h in
      let t = has_tail-HasTail prefix text y in
      let first : b ≡ c = ground arith in
      record { tail = t.tail; split = λ i. first i ∷ t.split i; filled = t.filled; all = t.all }

  has_tail_of_tail :
      (prefix tail : Bytes) → tail ≢ [] → All P tail → has_tail p prefix (prefix ++ tail) ≡ true
  unfolding has_tail
  has_tail_of_tail [] tail n a = rw (is_filled_of_filled tail n, all_bytes_of_All tail a)
  has_tail_of_tail (c ∷ prefix) tail n a = ground (arith, has_tail_of_tail prefix tail n a)

  has_tail_of_HasTail :
      (prefix text : Bytes) → HasTail P prefix text → has_tail p prefix text ≡ true
  has_tail_of_HasTail prefix text t =
      ap (has_tail p prefix) t.split ∙ has_tail_of_tail prefix t.tail t.filled t.all

is_rooted-true : (text : Bytes) → is_rooted text ≡ true → (rest : Bytes) × (text ≡ 47 ∷ rest)
is_rooted-true [] h = cc
is_rooted-true (b ∷ text) h = let first : b ≡ 47 = ground arith in (text, λ i. first i ∷ text)

validate_replacement-none : (r : Replacement) → validate_replacement r ≡ none → IsValidReplacement r
unfolding validate_replacement
validate_replacement-none r h = record {
  id = has_tail-HasTail is_digit_byte IsDigit is_digit_byte_iff (codes "S") r.id (ground arith);
  short = ground arith;
  rooted = is_rooted-true r.pointer (ground arith);
  pointer =
      all_bytes-true is_pointer_byte IsPointerByte is_pointer_byte_iff r.pointer (ground arith);
  occurs = ground arith;
}

validate_replacement_of_valid :
    (r : Replacement) → IsValidReplacement r → validate_replacement r ≡ none
unfolding validate_replacement
validate_replacement_of_valid r v =
    let (rest, rooted) = v.rooted in
    rw
      (
        has_tail_of_HasTail is_digit_byte IsDigit is_digit_byte_iff (codes "S") r.id v.id,
        all_bytes_of_All is_pointer_byte IsPointerByte is_pointer_byte_iff r.pointer v.pointer,
        ap is_rooted rooted,
      )
      (ground (arith, v.short, v.occurs))

validate_all-none : (rs : List Replacement) → validate_all rs ≡ none → All IsValidReplacement rs
unfolding validate_all
validate_all-none [] h = tt
validate_all-none (r ∷ rs) h =
    (validate_replacement-none r (ground arith), validate_all-none rs (ground arith))

validate_all_of_valid : (rs : List Replacement) → All IsValidReplacement rs → validate_all rs ≡ none
unfolding validate_all
validate_all_of_valid [] h = refl
validate_all_of_valid (r ∷ rs) h =
    rw (validate_replacement_of_valid r h.0, validate_all_of_valid rs h.1)

validate-none : (r : Record) → validate r ≡ none → IsValid r
unfolding validate
validate-none r h = record {
  version = ground arith;
  short = ground arith;
  request_id =
      has_tail-HasTail is_request_byte IsRequestByte is_request_byte_iff (codes "req_") r.request_id
        (ground arith);
  state = ground arith;
  few = ground arith;
  replacements = validate_all-none r.replacements (ground arith);
}

validate_of_valid : (r : Record) → IsValid r → validate r ≡ none
unfolding validate
validate_of_valid r v =
    rw
      (
        has_tail_of_HasTail is_request_byte IsRequestByte is_request_byte_iff (codes "req_")
            r.request_id v.request_id,
        validate_all_of_valid r.replacements v.replacements,
      )
      (ground (arith, v.version, v.short, v.state, v.few))

-- `validate` accepts a record exactly if its version is 1, its identifier is `req_` and hexadecimal
-- digits or underscores, of at most 80 bytes, it has an issue exactly if its coverage is not full,
-- and it has at most 1024 replacements, each with an identifier of `S` and digits, a pointer of at
-- most 256 bytes that starts with a slash and has only letters, digits and `/_-~*`, and at least one
-- occurrence.
pub validate_iff : (r : Record) → (validate r ≡ none) ↔ IsValid r
validate_iff r = (validate-none r, validate_of_valid r)
