-- ===== src/Proxy/Sanitize/Pointers.antt =====
-- JSON pointers (RFC 6901), and where the pointers of the observations lead.
use mathlib.Core.List.{map-append}
use blindfold.Prelude.{
  ℕ, zero, suc, ◌≤◌, ◌<◌, ◌⊎◌, ◌≡◌, ◌≢◌, refl, sym, subst, ap, ◌∙◌, arith, inl, inr, false, ◌&&◌,
  Bool-cases, Option, none, some, List, [], ◌∷◌, ◌++◌, map, ◌==◌, if◌then◌else◌, All, All-append,
  All-map, ◌>>=◌, >>=-eq-some, bytes_eq, bytes_eq_refl,
}
use blindfold.Prelude.Decimal.{decimal, IsDigits, decimal-IsDigits, number_of, number_of-decimal}
use blindfold.Prelude.Splitting.{split_on, split_on-filled, split_on-append, split_on-piece}
use blindfold.Core.SafeRef.{Text}
use blindfold.Proxy.Sanitize.{
  Value, array, object, Items, no_items, item, Fields, no_fields, field, replace_char, escape_key,
  child,
}

-- `~1` stands for a slash, and `~0` for a tilde.
unfoldable pub unescape : Text → Text
unescape [] = []
unescape (c ∷ []) = c ∷ []
unescape (c ∷ d ∷ text) =
    let rest = unescape text in
    let later = unescape (d ∷ text) in
    if c == 126 && d == 48 then 126 ∷ rest else if c == 126 && d == 49 then 47 ∷ rest else c ∷ later

unescape-other : (c : ℕ) (text : Text) → c ≢ 126 → unescape (c ∷ text) ≡ c ∷ unescape text
unfolding unescape
unescape-other c [] h = refl
unescape-other c (d ∷ text) h = let other : (c == 126) ≡ false = ground (arith, h) in rw other refl

unescape-plain : (text : Text) → All (λ c. c ≢ 126) text → unescape text ≡ text
unescape-plain [] h = unfold unescape in refl
unescape-plain (c ∷ text) h = unescape-other c text h.0 ∙ ap (◌∷◌ c) (unescape-plain text h.1)

-- A key is escaped character by character.
escape_char : ℕ → Text
escape_char c = if c == 126 then 126 ∷ 48 ∷ [] else if c == 47 then 126 ∷ 49 ∷ [] else c ∷ []

escape_key-cons : (c : ℕ) (key : Text) → escape_key (c ∷ key) ≡ escape_char c ++ escape_key key
unfolding escape_key replace_char escape_char
escape_key-cons c key = elim (Bool-cases (c == 126)) [
  | inl t ↦ rw t refl
  | inr f ↦ elim (Bool-cases (c == 47)) [ inl t ↦ rw (f, t) refl | inr g ↦ rw (f, g) refl ]
]

unescape-escape_char : (c : ℕ) (text : Text) → unescape (escape_char c ++ text) ≡ c ∷ unescape text
unfolding escape_char
unescape-escape_char c text = elim (Bool-cases (c == 126)) [
  | inl t ↦
      let same : 126 ≡ c = ground (arith, t) in
      rw t (unfold unescape in ap (λ d. d ∷ unescape text) same)
  | inr f ↦ elim (Bool-cases (c == 47)) [
    | inl t ↦
        let same : 47 ≡ c = ground (arith, t) in
        rw (f, t) (unfold unescape in ap (λ d. d ∷ unescape text) same)
    | inr g ↦ let other : c ≢ 126 = ground (arith, f) in rw (f, g) (unescape-other c text other)
  ]
]

unescape-escape_key : (key : Text) → unescape (escape_key key) ≡ key
unescape-escape_key [] = unfold unescape escape_key replace_char in refl
unescape-escape_key (c ∷ key) =
    ap unescape (escape_key-cons c key)
    ∙ unescape-escape_char c (escape_key key)
    ∙ ap (◌∷◌ c) (unescape-escape_key key)

escape_char-slash : (c : ℕ) → All (λ d. d ≢ 47) (escape_char c)
unfolding escape_char
escape_char-slash c = elim (Bool-cases (c == 126)) [
  | inl t ↦ rw t (omega arith)
  | inr f ↦ elim (Bool-cases (c == 47)) [
    | inl t ↦ rw (f, t) (omega arith)
    | inr g ↦ let other : c ≢ 47 = ground (arith, g) in rw (f, g) (other, tt)
  ]
]

escape_key-slash : (key : Text) → All (λ d. d ≢ 47) (escape_key key)
escape_key-slash [] = unfold escape_key replace_char in tt
escape_key-slash (c ∷ key) = subst (All (λ d. d ≢ 47)) (sym (escape_key-cons c key)) (
    All-append (λ d. d ≢ 47) (escape_char c) (escape_key key) (escape_char-slash c)
      (escape_key-slash key))

abbrev pub rest_of : List Text → List Text
rest_of [] = []
rest_of (piece ∷ pieces) = pieces

-- The reference tokens of a pointer.
unfoldable pub tokens : Text → List Text
tokens pointer = map unescape (rest_of (split_on 47 pointer))

rest_of-append : (xs ys : List Text) → xs ≢ [] → rest_of (xs ++ ys) ≡ rest_of xs ++ ys
rest_of-append [] ys h = absurd (h refl)
rest_of-append (x ∷ xs) ys h = refl

tokens-child :
    (pointer token : Text)
    → All (λ c. c ≢ 47) token
    → tokens (child pointer token) ≡ tokens pointer ++ (unescape token ∷ [])
unfolding tokens
tokens-child pointer token h =
    ap (λ l. map unescape (rest_of l))
      (split_on-append 47 pointer token ∙ (λ i. split_on 47 pointer ++ split_on-piece 47 token h i))
    ∙ ap (map unescape)
        (rest_of-append (split_on 47 pointer) (token ∷ []) (split_on-filled 47 pointer))
    ∙ map-append unescape (rest_of (split_on 47 pointer)) (token ∷ [])

pub tokens-key :
    (pointer key : Text) → tokens (child pointer (escape_key key)) ≡ tokens pointer ++ (key ∷ [])
tokens-key pointer key =
    tokens-child pointer (escape_key key) (escape_key-slash key)
    ∙ ap (λ t. tokens pointer ++ (t ∷ [])) (unescape-escape_key key)

IsDigits-Without :
    (c : ℕ) (text : Text) → (c < 48) ⊎ (57 < c) → IsDigits text → All (λ d. d ≢ c) text
IsDigits-Without c text h =
    All-map (λ d. (48 ≤ d) × (d ≤ 57)) (λ d. d ≢ c)
      (λ d k e. elim h [ inl a ↦ absurd (omega arith) | inr b ↦ absurd (omega arith) ]) text

pub tokens-index :
    (pointer : Text) (index : ℕ)
    → tokens (child pointer (decimal index)) ≡ tokens pointer ++ (decimal index ∷ [])
tokens-index pointer index =
    tokens-child pointer (decimal index)
      (IsDigits-Without 47 (decimal index) (inl (omega arith)) (decimal-IsDigits index))
    ∙ ap (λ t. tokens pointer ++ (t ∷ []))
        (unescape-plain (decimal index)
          (IsDigits-Without 126 (decimal index) (inr (omega arith)) (decimal-IsDigits index)))

abbrev pub item_at : ℕ → Items → Option Value
item_at n no_items = none
item_at zero (item value items) = some value
item_at (suc n) (item value items) = item_at n items

abbrev pub field_at : Text → Fields → Option Value
field_at key no_fields = none
field_at key (field name value fields) =
    if bytes_eq name key then some value else field_at key fields

-- The member that a reference token names: of an array by the decimal index.
abbrev pub member : Text → Value → Option Value
member token (array items) =
    if bytes_eq (decimal (number_of 0 token)) token then item_at (number_of 0 token) items else none
member token (object fields) = field_at token fields
member token _ = none

abbrev pub follow : List Text → Value → Option Value
follow [] value = some value
follow (token ∷ rest) value = member token value >>= follow rest

-- What a pointer leads to.
abbrev pub resolve_pointer : Text → Value → Option Value
resolve_pointer pointer value = follow (tokens pointer) value

>>=-some : (m : Option Value) → (m >>= (λ x. some x)) ≡ m
>>=-some none = refl
>>=-some (some x) = refl

pub follow-append :
    (path : List Text) (token : Text) (root value : Value)
    → follow path root ≡ some value
    → follow (path ++ (token ∷ [])) root ≡ member token value
follow-append [] token root value h = >>=-some (member token root) ∙ ap (member token) (same h)
  where
    same : some root ≡ some value → root ≡ value
    same e = cc
follow-append (t ∷ path) token root value h =
    let (next, e, f) = >>=-eq-some (member t root) (follow path) h in
    rw e (follow-append path token next value f)

pub member-index :
    (index : ℕ) (items : Items) → member (decimal index) (array items) ≡ item_at index items
member-index index items = rw (number_of-decimal index, bytes_eq_refl (decimal index)) refl
