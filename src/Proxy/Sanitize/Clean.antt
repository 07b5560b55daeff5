-- ===== src/Proxy/Sanitize/Clean.antt =====
-- What is left of a value that was sanitized.
use blindfold.Prelude.{
  ℕ, suc, ◌≡◌, refl, sym, subst, ap, ◌∙◌, arith, Bool, true, false, some, List, [], >>=-eq-some,
  bytes_eq→eq,
}
use blindfold.Prelude.Decimal.{decimal}
use blindfold.Core.SafeRef.{Text}
use blindfold.Proxy.Sanitize.{
  Sanitizer, Value, null, bool, number, string, array, object, Items, no_items, item, Fields,
  no_fields, field, Observation, escape_key, child, require, is_unchanged, sanitize_string,
  sanitize_textual_leaves, sanitize_items, sanitize_fields, sanitize_json,
}

pub require-true : (b : Bool) (u : Unit {0}) → require b ≡ some u → b ≡ true
require-true true u e = refl
require-true false u e = cc

pub first-eq :
    (out : Value × List Observation) (w : Value) (after : List Observation)
    → some out ≡ some (w, after)
    → w ≡ out.0
first-eq (x, y) w after e = cc

module _ (s : Sanitizer) where
  -- The sanitizer has nothing left to do on the text.
  abbrev pub IsFixed : Text → Type 0
  IsFixed text = s.sanitize text ≡ text

  unfoldable mutual
    -- In the value, every text is fixed: strings, keys and the texts of numbers.
    pub IsClean : Value → Type 0
    IsClean null = Unit
    IsClean (bool b) = Unit
    IsClean (number text) = IsFixed text
    IsClean (string text) = IsFixed text
    IsClean (array items) = AreClean items
    IsClean (object fields) = FieldsClean fields

    pub AreClean : Items → Type 0
    AreClean no_items = Unit
    AreClean (item value items) = IsClean value × AreClean items

    pub FieldsClean : Fields → Type 0
    FieldsClean no_fields = Unit
    FieldsClean (field key value fields) = IsFixed key × IsClean value × FieldsClean fields

  unfoldable mutual
    -- The value with every string replaced by its sanitized text.
    pub replaced : Value → Value
    replaced null = null
    replaced (bool b) = bool b
    replaced (number text) = number text
    replaced (string text) = string (s.sanitize_traced text).0
    replaced (array items) = array (replaced_items items)
    replaced (object fields) = object (replaced_fields fields)

    pub replaced_items : Items → Items
    replaced_items no_items = no_items
    replaced_items (item value items) = item (replaced value) (replaced_items items)

    pub replaced_fields : Fields → Fields
    replaced_fields no_fields = no_fields
    replaced_fields (field key value fields) = field key (replaced value) (replaced_fields fields)

  unchanged-IsFixed :
      (text : Text) (u : Unit {0}) → require (is_unchanged s text) ≡ some u → IsFixed text
  unchanged-IsFixed text u e =
      bytes_eq→eq (s.sanitize text) text (require-true (is_unchanged s text) u e)

  module _ (stable : (text : Text) → IsFixed (s.sanitize_traced text).0) where
    mutual
      unfolding sanitize_textual_leaves sanitize_string IsClean replaced

      leaves-IsClean :
          (value : Value) (pointer : Text) (seen : List Observation)
          (out : Value × List Observation)
          → sanitize_textual_leaves s value pointer seen ≡ some out
          → IsClean out.0 × (out.0 ≡ replaced value)
      leaves-IsClean null pointer seen (w, after) e =
          let same : w ≡ null = ground (arith, e) in (subst IsClean (sym same) tt, same)
      leaves-IsClean (bool b) pointer seen (w, after) e =
          let same : w ≡ bool b = ground (arith, e) in (subst IsClean (sym same) tt, same)
      leaves-IsClean (number text) pointer seen (w, after) e =
          let (u, fixed, f) = >>=-eq-some (require (is_unchanged s text)) _ e in
          let same : w ≡ number text = ground (arith, f) in
          (subst IsClean (sym same) (unchanged-IsFixed text u fixed), same)
      leaves-IsClean (string text) pointer seen (w, after) e =
          let same : w ≡ string (s.sanitize_traced text).0 =
            first-eq (sanitize_string s text pointer seen) w after e in
          (subst IsClean (sym same) (stable text), same)
      leaves-IsClean (array items) pointer seen (w, after) e =
          let ((items', later), f, g) = >>=-eq-some (sanitize_items s items 0 pointer seen) _ e in
          let (clean, same) = items-AreClean items 0 pointer seen (items', later) f in
          let here : w ≡ array items' = ground (arith, g) in
          (subst IsClean (sym here) clean, here ∙ ap array same)
      leaves-IsClean (object fields) pointer seen (w, after) e =
          let ((fields', later), f, g) = >>=-eq-some (sanitize_fields s fields pointer seen) _ e in
          let (clean, same) = fields-FieldsClean fields pointer seen (fields', later) f in
          let here : w ≡ object fields' = ground (arith, g) in
          (subst IsClean (sym here) clean, here ∙ ap object same)

      items-AreClean :
          (items : Items) (index : ℕ) (pointer : Text) (seen : List Observation)
          (out : Items × List Observation)
          → sanitize_items s items index pointer seen ≡ some out
          → AreClean out.0 × (out.0 ≡ replaced_items items)
      items-AreClean no_items index pointer seen (w, after) e =
          let same : w ≡ no_items = ground (arith, e) in (subst AreClean (sym same) tt, same)
      items-AreClean (item value items) index pointer seen (w, after) e =
          let ((v', mid), f, g) =
            >>=-eq-some (sanitize_textual_leaves s value (child pointer (decimal index)) seen) _
              e in
          let ((items', later), h, k) =
            >>=-eq-some (sanitize_items s items (suc index) pointer mid) _ g in
          let (clean, same) =
            leaves-IsClean value (child pointer (decimal index)) seen (v', mid) f in
          let (cleans, sames) = items-AreClean items (suc index) pointer mid (items', later) h in
          let here : w ≡ item v' items' = ground (arith, k) in
          (subst AreClean (sym here) (clean, cleans), here ∙ (λ i. item (same i) (sames i)))

      fields-FieldsClean :
          (fields : Fields) (pointer : Text) (seen : List Observation)
          (out : Fields × List Observation)
          → sanitize_fields s fields pointer seen ≡ some out
          → FieldsClean out.0 × (out.0 ≡ replaced_fields fields)
      fields-FieldsClean no_fields pointer seen (w, after) e =
          let same : w ≡ no_fields = ground (arith, e) in (subst FieldsClean (sym same) tt, same)
      fields-FieldsClean (field key value fields) pointer seen (w, after) e =
          let (u, fixed, d) = >>=-eq-some (require (is_unchanged s key)) _ e in
          let ((v', mid), f, g) =
            >>=-eq-some (sanitize_textual_leaves s value (child pointer (escape_key key)) seen) _
              d in
          let ((fields', later), h, k) = >>=-eq-some (sanitize_fields s fields pointer mid) _ g in
          let (clean, same) =
            leaves-IsClean value (child pointer (escape_key key)) seen (v', mid) f in
          let (cleans, sames) = fields-FieldsClean fields pointer mid (fields', later) h in
          let here : w ≡ field key v' fields' = ground (arith, k) in
          (
            subst FieldsClean (sym here) (unchanged-IsFixed key u fixed, clean, cleans),
            here ∙ (λ i. field key (same i) (sames i)),
          )

    -- Let the sanitizer leave alone what it has made of any text. Then whatever `sanitize_json` lets
    -- through is the value with each string replaced by its sanitized text and all else as it was, and
    -- the sanitizer has nothing left to do on any string, any key and the text of any number in it.
    pub sanitize_json-IsClean :
        (value out : Value) (observations : List Observation)
        → sanitize_json s value ≡ some (out, observations)
        → IsClean out × (out ≡ replaced value)
    unfolding sanitize_json
    sanitize_json-IsClean value out observations = leaves-IsClean value [] [] (out, observations)
