-- ===== src/Proxy/Sanitize/Observed.antt =====
-- Every observation points at a string of the value, in which its category was found.
use blindfold.Prelude.{
  ℕ, suc, ◌+◌, ◌≡◌, ◌≢◌, refl, sym, subst, ap, ◌∙◌, arith, inl, inr, false, Bool-cases, some, List,
  [], ◌∷◌, Memᴰ, All, All-append, >>=-eq-some, bytes_eq, bytes_eq→eq, bytes_eq_refl,
}
use blindfold.Prelude.Decimal.{decimal}
use blindfold.Prelude.Splitting.{split_on}
use blindfold.Core.SafeRef.{Text}
use blindfold.Trace.Record.{Category}
use blindfold.Proxy.Sanitize.{
  Sanitizer, Value, null, bool, number, string, array, object, Items, no_items, item, Fields,
  no_fields, field, Observation, escape_key, child, observe, require, is_unchanged, sanitize_string,
  sanitize_textual_leaves, sanitize_items, sanitize_fields, sanitize_json,
}
use blindfold.Proxy.Sanitize.Pointers.{
  tokens, tokens-key, tokens-index, item_at, field_at, follow, follow-append, member-index,
  resolve_pointer,
}

-- No field has the name.
abbrev pub IsAbsent : Text → Fields → Type 0
IsAbsent key no_fields = Unit
IsAbsent key (field name value fields) = (name ≢ key) × IsAbsent key fields

unfoldable mutual
  -- In each object the names differ, as in a map.
  pub HasKeys : Value → Type 0
  HasKeys (array items) = HaveKeys items
  HasKeys (object fields) = FieldsHaveKeys fields
  HasKeys _ = Unit

  pub HaveKeys : Items → Type 0
  HaveKeys no_items = Unit
  HaveKeys (item value items) = HasKeys value × HaveKeys items

  pub FieldsHaveKeys : Fields → Type 0
  FieldsHaveKeys no_fields = Unit
  FieldsHaveKeys (field key value fields) =
      IsAbsent key fields × HasKeys value × FieldsHaveKeys fields

-- A name that is found is not the absent one.
field_at-other :
    (key name : Text) (fields : Fields) (value : Value)
    → IsAbsent name fields
    → field_at key fields ≡ some value
    → bytes_eq name key ≡ false
field_at-other key name no_fields value a e = cc
field_at-other key name (field other v fields) value a e = elim (Bool-cases (bytes_eq name key)) [
  | inl t ↦
      let same = bytes_eq→eq name key t in
      elim (Bool-cases (bytes_eq other key)) [
        | inl u ↦ absurd (a.0 (bytes_eq→eq other key u ∙ sym same))
        | inr g ↦ absurd (cc (t, field_at-other key name fields value a.1 (rw g at e)))
      ]
  | inr f ↦ f
]

second-eq :
    (out : Value × List Observation) (w : Value) (after : List Observation)
    → some out ≡ some (w, after)
    → out.1 ≡ after
second-eq (x, y) w after e = cc

second_items-eq :
    (out : Items × List Observation) (w : Items) (after : List Observation)
    → some out ≡ some (w, after)
    → out.1 ≡ after
second_items-eq (x, y) w after e = cc

second_fields-eq :
    (out : Fields × List Observation) (w : Fields) (after : List Observation)
    → some out ≡ some (w, after)
    → out.1 ≡ after
second_fields-eq (x, y) w after e = cc

module _ (s : Sanitizer) (root : Value) where
  -- The observation's pointer leads to a string of the root, in which the sanitizer found the category.
  pub record PointsAt (o : Observation) : Type 0 where
    pub text : Text
    pub leads : resolve_pointer o.pointer root ≡ some (string text)
    pub found : Memᴰ o.category (s.sanitize_traced text).1

  abbrev AllPoint : List Observation → Type 0
  AllPoint = All PointsAt

  observe-AllPoint :
      (pointer text : Text) (categories : List Category)
      → resolve_pointer pointer root ≡ some (string text)
      → ((c : Category) → Memᴰ c categories → Memᴰ c (s.sanitize_traced text).1)
      → AllPoint (observe pointer categories)
  observe-AllPoint pointer text [] h f = tt
  observe-AllPoint pointer text (c ∷ categories) h f = (
    record { text = text; leads = h; found = f c (Memᴰ.head refl) },
    observe-AllPoint pointer text categories h (λ d m. f d (Memᴰ.tail m)),
  )

  -- The items from an index on are those of the whole array.
  abbrev IsTail : ℕ → Items → Items → Type 0
  IsTail index items whole =
      (n : ℕ) (value : Value)
      → item_at n items ≡ some value
      → item_at (index + n) whole ≡ some value

  abbrev IsPart : Fields → Fields → Type 0
  IsPart fields whole =
      (key : Text) (value : Value)
      → field_at key fields ≡ some value
      → field_at key whole ≡ some value

  IsTail-whole : (items : Items) → IsTail 0 items items
  IsTail-whole items n x p =
      let same : n ≡ 0 + n = omega arith in subst (λ m. item_at m items ≡ some x) same p

  IsTail-next :
      (index : ℕ) (value : Value) (items whole : Items)
      → IsTail index (item value items) whole
      → IsTail (suc index) items whole
  IsTail-next index value items whole tail n x p =
      let same : index + suc n ≡ suc index + n = omega arith in
      subst (λ m. item_at m whole ≡ some x) same (tail (suc n) x p)

  at_index :
      (pointer : Text) (index : ℕ) (value : Value) (items whole : Items)
      → follow (tokens pointer) root ≡ some (array whole)
      → IsTail index (item value items) whole
      → follow (tokens (child pointer (decimal index))) root ≡ some value
  at_index pointer index value items whole at tail =
      let same : index + 0 ≡ index = omega arith in
      ap (λ t. follow t root) (tokens-index pointer index)
      ∙ follow-append (tokens pointer) (decimal index) root (array whole) at
      ∙ member-index index whole
      ∙ subst (λ m. item_at m whole ≡ some value) same (tail 0 value refl)

  at_key :
      (pointer key : Text) (value : Value) (fields whole : Fields)
      → follow (tokens pointer) root ≡ some (object whole)
      → IsPart (field key value fields) whole
      → follow (tokens (child pointer (escape_key key))) root ≡ some value
  at_key pointer key value _ whole at part =
      ap (λ t. follow t root) (tokens-key pointer key)
      ∙ follow-append (tokens pointer) key root (object whole) at
      ∙ part key value (rw (bytes_eq_refl key) refl)

  mutual
    unfolding sanitize_textual_leaves sanitize_string HasKeys

    leaves-AllPoint :
        (value : Value) (pointer : Text) (seen : List Observation) (out : Value × List Observation)
        → follow (tokens pointer) root ≡ some value
        → HasKeys value
        → AllPoint seen
        → sanitize_textual_leaves s value pointer seen ≡ some out
        → AllPoint out.1
    leaves-AllPoint null pointer seen (w, after) at keys h e =
        subst AllPoint (second-eq (null, seen) w after e) h
    leaves-AllPoint (bool b) pointer seen (w, after) at keys h e =
        subst AllPoint (second-eq (bool b, seen) w after e) h
    leaves-AllPoint (number text) pointer seen (w, after) at keys h e =
        let (u, fixed, f) = >>=-eq-some (require (is_unchanged s text)) _ e in
        subst AllPoint (second-eq (number text, seen) w after f) h
    leaves-AllPoint (string text) pointer seen (w, after) at keys h e =
        subst AllPoint (second-eq (sanitize_string s text pointer seen) w after e) (
          All-append PointsAt seen (observe pointer (s.sanitize_traced text).1) h
            (observe-AllPoint pointer text (s.sanitize_traced text).1 at (λ c m. m)))
    leaves-AllPoint (array items) pointer seen (w, after) at keys h e =
        let ((items', later), f, g) = >>=-eq-some (sanitize_items s items 0 pointer seen) _ e in
        subst AllPoint (second-eq (array items', later) w after g) (
          items-AllPoint items items 0 pointer seen (items', later) at (IsTail-whole items) keys h
            f)
    leaves-AllPoint (object fields) pointer seen (w, after) at keys h e =
        let ((fields', later), f, g) = >>=-eq-some (sanitize_fields s fields pointer seen) _ e in
        subst AllPoint (second-eq (object fields', later) w after g)
          (fields-AllPoint fields fields pointer seen (fields', later) at (λ k x p. p) keys h f)

    items-AllPoint :
        (items whole : Items) (index : ℕ) (pointer : Text) (seen : List Observation)
        (out : Items × List Observation)
        → follow (tokens pointer) root ≡ some (array whole)
        → IsTail index items whole
        → HaveKeys items
        → AllPoint seen
        → sanitize_items s items index pointer seen ≡ some out
        → AllPoint out.1
    items-AllPoint no_items whole index pointer seen (w, after) at tail keys h e =
        subst AllPoint (second_items-eq (no_items, seen) w after e) h
    items-AllPoint (item value items) whole index pointer seen (w, after) at tail keys h e =
        let here = child pointer (decimal index) in
        let ((v', mid), f, g) = >>=-eq-some (sanitize_textual_leaves s value here seen) _ e in
        let ((items', later), k, l) =
          >>=-eq-some (sanitize_items s items (suc index) pointer mid) _ g in
        let first =
          leaves-AllPoint value here seen (v', mid)
            (at_index pointer index value items whole at tail) keys.0 h f in
        subst AllPoint (second_items-eq (item v' items', later) w after l) (
          items-AllPoint items whole (suc index) pointer mid (items', later) at
            (IsTail-next index value items whole tail) keys.1 first k)

    fields-AllPoint :
        (fields whole : Fields) (pointer : Text) (seen : List Observation)
        (out : Fields × List Observation)
        → follow (tokens pointer) root ≡ some (object whole)
        → IsPart fields whole
        → FieldsHaveKeys fields
        → AllPoint seen
        → sanitize_fields s fields pointer seen ≡ some out
        → AllPoint out.1
    fields-AllPoint no_fields whole pointer seen (w, after) at part keys h e =
        subst AllPoint (second_fields-eq (no_fields, seen) w after e) h
    fields-AllPoint (field key value fields) whole pointer seen (w, after) at part keys h e =
        let here = child pointer (escape_key key) in
        let (u, fixed, d) = >>=-eq-some (require (is_unchanged s key)) _ e in
        let ((v', mid), f, g) = >>=-eq-some (sanitize_textual_leaves s value here seen) _ d in
        let ((fields', later), k, l) = >>=-eq-some (sanitize_fields s fields pointer mid) _ g in
        let first =
          leaves-AllPoint value here seen (v', mid) (at_key pointer key value _ whole at part)
            keys.1 h f in
        subst AllPoint (second_fields-eq (field key v' fields', later) w after l) (
          fields-AllPoint fields whole pointer mid (fields', later) at
            (λ n x p. part n x (rw (field_at-other n key fields x keys.0 p) p)) keys.2 first k)

-- Let the names differ in each object of a value. Then the pointer of every observation that
-- `sanitize_json` makes leads, by the rules of JSON pointers, to a string of the value in which the
-- sanitizer has found the observation's category.
pub sanitize_json-PointsAt :
    (s : Sanitizer) (value out : Value) (observations : List Observation)
    → HasKeys value
    → sanitize_json s value ≡ some (out, observations)
    → All (PointsAt s value) observations
unfolding sanitize_json
sanitize_json-PointsAt s value out observations keys =
    leaves-AllPoint s value value [] [] (out, observations) (unfold tokens split_on in refl) keys tt
