-- ===== src/Core/SafeRef/Pieces.antt =====
-- What the functions on text that `parse` calls find.
use blindfold.Prelude.{
  if◌then◌else◌, ◌-◌, ◌≡◌, refl, sym, ap, ◌∙◌, Option, some, [], ◌∷◌, ◌++◌, arith, ◌==◌, Bool-cases,
  Option-cases, inl, inr, length, take, drop, length-append, take-length-append, drop-length-append,
  take-append-drop, bytes_eq, bytes_eq→eq, bytes_eq_refl,
}
use blindfold.Core.SafeRef.{
  Text, SafeRefKind, secret, environment, personally_identifiable_information, private_key,
  certificate, as_str, parse_kind, strip_prefix, strip_suffix, split_once,
}

pub strip_prefix-append : (ps text : Text) → strip_prefix (ps ++ text) ps ≡ some text
unfolding strip_prefix
strip_prefix-append [] text = refl
strip_prefix-append (p ∷ ps) text = ground (arith, strip_prefix-append ps text)

pub strip_prefix-some : (ps text rest : Text) → strip_prefix text ps ≡ some rest → text ≡ ps ++ rest
unfolding strip_prefix
strip_prefix-some [] text rest h = cc
strip_prefix-some (p ∷ ps) [] rest h = cc
strip_prefix-some (p ∷ ps) (b ∷ text) rest h = elim (Bool-cases (b == p)) [
  | inl e ↦
      let k = strip_prefix-some ps text rest (ground arith) in
      let same : b ≡ p = ground arith in λ i. same i ∷ k i
  | inr e ↦ absurd (ground arith)
]

pub strip_suffix-append : (text suffix : Text) → strip_suffix (text ++ suffix) suffix ≡ some text
unfolding strip_suffix
strip_suffix-append text suffix =
    let size : length (text ++ suffix) - length suffix ≡ length text =
      omega (arith, length-append text suffix) in
    rw (size, drop-length-append text suffix, take-length-append text suffix, bytes_eq_refl suffix)

pub strip_suffix-some :
    (text suffix rest : Text) → strip_suffix text suffix ≡ some rest → text ≡ rest ++ suffix
unfolding strip_suffix
strip_suffix-some text suffix rest h =
    let n = length text - length suffix in
    elim (Bool-cases (bytes_eq (drop n text) suffix)) [
      | inl e ↦
          let taken : take n text ≡ rest = ground arith in
          sym (take-append-drop n text) ∙ (λ i. taken i ++ bytes_eq→eq (drop n text) suffix e i)
      | inr e ↦ absurd (ground arith)
    ]

pub split_once-some :
    (text before behind : Text)
    → split_once text ≡ some (before, behind)
    → text ≡ before ++ (58 ∷ behind)
unfolding split_once
split_once-some [] before behind h = cc
split_once-some (b ∷ text) before behind h = elim (Bool-cases (b == 58)) [
  | inl e ↦
      let same : b ≡ 58 = ground arith in
      let first : before ≡ [] = ground arith in
      let later : behind ≡ text = ground arith in λ i. sym first i ++ (same i ∷ sym later i)
  | inr e ↦ elim (Option-cases (split_once text)) [
    | inl n ↦ absurd (ground arith)
    | inr ((x, y), f) ↦
        let k = split_once-some text x y f in
        let first : before ≡ b ∷ x = ground arith in
        let later : behind ≡ y = ground arith in
        ap (◌∷◌ b) k ∙ (λ i. sym first i ++ (58 ∷ sym later i))
  ]
]

pub split_once-kind :
    (kind : SafeRefKind) (id : Text)
    → split_once (as_str kind ++ (58 ∷ id)) ≡ some (as_str kind, id)
unfolding split_once as_str
split_once-kind secret id = refl
split_once-kind environment id = refl
split_once-kind personally_identifiable_information id = refl
split_once-kind private_key id = refl
split_once-kind certificate id = refl

pub parse_kind-as_str : (kind : SafeRefKind) → parse_kind (as_str kind) ≡ some kind
unfolding parse_kind as_str bytes_eq
parse_kind-as_str secret = refl
parse_kind-as_str environment = refl
parse_kind-as_str personally_identifiable_information = refl
parse_kind-as_str private_key = refl
parse_kind-as_str certificate = refl

-- One comparison of the match.
pick :
    (value : Text) (k kind : SafeRefKind) (rest : Option SafeRefKind)
    → (if bytes_eq value (as_str k) then some k else rest) ≡ some kind
    → (rest ≡ some kind → value ≡ as_str kind)
    → value ≡ as_str kind
pick value k kind rest h other = elim (Bool-cases (bytes_eq value (as_str k))) [
  | inl e ↦ let same : k ≡ kind = ground arith in bytes_eq→eq value (as_str k) e ∙ ap as_str same
  | inr e ↦ other (ground arith)
]

pub parse_kind-some :
    (value : Text) (kind : SafeRefKind) → parse_kind value ≡ some kind → value ≡ as_str kind
unfolding parse_kind
parse_kind-some value kind h = pick value secret kind _ h (λ h1.
    pick value environment kind _ h1 (λ h2.
      pick value personally_identifiable_information kind _ h2 (λ h3.
        pick value private_key kind _ h3 (λ h4. pick value certificate kind _ h4 (λ h5. cc)))))
