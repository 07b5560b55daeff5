-- ===== src/Prelude/Decimal.antt =====
-- Numbers that are written in decimal.
use Prim.Native.Nat.{ℕ, zero, suc, ◌+◌, ◌-◌, ◌*◌, ◌/◌, ◌%◌, ◌≤◌, ◌<◌}
use mathlib.Core.Path.{◌≡◌, refl, ap, ◌∙◌}
use mathlib.Core.Logic.{inl, inr}
use mathlib.Core.List.{List, [], ◌∷◌, ◌++◌}
use native.Mathlib.Omega.{arith}
use blindfold.Prelude.Tests.{ltb, ltb→lt, if◌then◌else◌, Bool-cases}
use blindfold.Prelude.Lists.{All, All-append}

unfoldable pub digits : ℕ → ℕ → List ℕ
digits zero n = []
digits (suc fuel) n =
    let front = digits fuel (n / 10) in
    if ltb n 10 then (n + 48) ∷ [] else front ++ ((n % 10 + 48) ∷ [])

-- `{}` of a number
unfoldable pub decimal : ℕ → List ℕ
unfolding digits
decimal n = digits (suc n) n

abbrev pub IsDigits : List ℕ → Type 0
IsDigits = All (λ c. (48 ≤ c) × (c ≤ 57))

pub digits-IsDigits : (fuel n : ℕ) → IsDigits (digits fuel n)
unfolding digits
digits-IsDigits zero n = tt
digits-IsDigits (suc fuel) n = elim (Bool-cases (ltb n 10)) [
  | inl t ↦ let small = ltb→lt n 10 t in rw t (omega arith)
  | inr f ↦ rw f (
      All-append (λ c. (48 ≤ c) × (c ≤ 57)) (digits fuel (n / 10)) _ (digits-IsDigits fuel (n / 10))
        (omega arith))
]

pub decimal-IsDigits : (n : ℕ) → IsDigits (decimal n)
unfolding decimal
decimal-IsDigits n = digits-IsDigits (suc n) n

-- The number that digits stand for, behind the digits of `value`.
unfoldable pub number_of : ℕ → List ℕ → ℕ
number_of value [] = value
number_of value (c ∷ text) = number_of (value * 10 + (c - 48)) text

number_of-append :
    (text : List ℕ) (c value : ℕ)
    → number_of value (text ++ (c ∷ [])) ≡ number_of value text * 10 + (c - 48)
unfolding number_of
number_of-append [] c value = refl
number_of-append (d ∷ text) c value = number_of-append text c (value * 10 + (d - 48))

number_of-digits : (fuel n : ℕ) → n < fuel → number_of 0 (digits fuel n) ≡ n
unfolding digits
number_of-digits zero n h = absurd (omega arith)
number_of-digits (suc fuel) n h = elim (Bool-cases (ltb n 10)) [
  | inl t ↦ rw t (unfold number_of in omega arith)
  | inr f ↦
      let large : 10 ≤ n = ground (arith, f) in
      rw f (
        number_of-append (digits fuel (n / 10)) (n % 10 + 48) 0
        ∙ ap (λ (m : ℕ). m * 10 + (n % 10 + 48 - 48)) (number_of-digits fuel (n / 10) (omega arith))
        ∙ omega arith)
]

pub number_of-decimal : (n : ℕ) → number_of 0 (decimal n) ≡ n
unfolding decimal
number_of-decimal n = number_of-digits (suc n) n (omega arith)
