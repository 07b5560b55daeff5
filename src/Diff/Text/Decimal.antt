-- ===== src/Diff/Text/Decimal.antt =====
-- Numbers that are written in decimal are read back by `parse::<usize>()`.
use blindfold.Prelude.{
  ℕ, zero, suc, ◌+◌, ◌-◌, ◌*◌, ◌/◌, ◌%◌, ◌≤◌, ◌<◌, ◌≡◌, ◌≢◌, refl, ap, ◌∙◌, inl, inr, arith, false,
  ◌&&◌, Option, none, some, [], ◌∷◌, ◌++◌, ltb, leb, ◌==◌, if◌then◌else◌, Bool-cases, ◌>>=◌, ltb→lt,
}
use blindfold.Prelude.Decimal.{digits, decimal, IsDigits, digits-IsDigits}
use blindfold.Core.SafeRef.{Text}
use blindfold.Diff.Text.{is_digit, parse_digits, parse_usize, usize_max}

abbrev one_digit : ℕ → ℕ → Option ℕ
one_digit c value =
    if is_digit c && leb (value * 10 + (c - 48)) usize_max
    then some (value * 10 + (c - 48))
    else none

parse_digits-append :
    (text : Text) (c value : ℕ)
    → parse_digits value (text ++ (c ∷ [])) ≡ (parse_digits value text >>= one_digit c)
unfolding parse_digits
parse_digits-append [] c value = refl
parse_digits-append (d ∷ text) c value =
    elim (Bool-cases (is_digit d && leb (value * 10 + (d - 48)) usize_max)) [
      | inl t ↦ rw t (parse_digits-append text c (value * 10 + (d - 48)))
      | inr f ↦ rw f refl
    ]

one_digit-last : (n : ℕ) → n ≤ usize_max → one_digit (n % 10 + 48) (n / 10) ≡ some n
one_digit-last n h = ground arith

parse_digits-digits :
    (fuel n : ℕ) → n < fuel → n ≤ usize_max → parse_digits 0 (digits fuel n) ≡ some n
unfolding digits
parse_digits-digits zero n h b = absurd (omega arith)
parse_digits-digits (suc fuel) n h b = elim (Bool-cases (ltb n 10)) [
  | inl t ↦ rw t (unfold parse_digits in ground (arith, ltb→lt n 10 t))
  | inr f ↦
      let large : 10 ≤ n = ground (arith, f) in
      rw f (
        parse_digits-append (digits fuel (n / 10)) (n % 10 + 48) 0
        ∙ ap (λ m. m >>= one_digit (n % 10 + 48))
            (parse_digits-digits fuel (n / 10) (omega arith) (omega arith))
        ∙ one_digit-last n b)
]

parse_usize-IsDigits :
    (text : Text) (n : ℕ)
    → IsDigits text
    → text ≢ []
    → parse_digits 0 text ≡ some n
    → parse_usize text ≡ some n
unfolding parse_usize
parse_usize-IsDigits [] n d f h = absurd (f refl)
parse_usize-IsDigits (c ∷ text) n d f h =
    let plus : (c == 43) ≡ false = ground (arith, d.0) in rw plus h

digits-filled : (fuel n : ℕ) → digits (suc fuel) n ≢ []
unfolding digits
digits-filled fuel n e = elim (Bool-cases (ltb n 10)) [
  | inl t ↦ cc (rw t at e)
  | inr f ↦ append-filled (digits fuel (n / 10)) (n % 10 + 48) (rw f at e)
]
  where
    append-filled : (text : Text) (c : ℕ) → text ++ (c ∷ []) ≢ []
    append-filled [] c h = cc
    append-filled (d ∷ text) c h = cc

-- A number that is written in decimal is read back.
pub parse_usize-decimal : (n : ℕ) → n ≤ usize_max → parse_usize (decimal n) ≡ some n
unfolding decimal
parse_usize-decimal n h =
    parse_usize-IsDigits (digits (suc n) n) n (digits-IsDigits (suc n) n) (digits-filled n n)
      (parse_digits-digits (suc n) n (omega arith) h)
