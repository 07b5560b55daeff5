-- ===== src/Prelude/Splitting.antt =====
-- A list that is split at every occurrence of a number, and put together again.
use Prim.Native.Nat.{ℕ}
use mathlib.Core.Path.{◌≡◌, refl, sym, ap, ◌∙◌}
use mathlib.Core.Logic.{◌≢◌, inl, inr}
use mathlib.Core.Bool.{true, false}
use mathlib.Core.List.{List, [], ◌∷◌, ◌++◌, append_assoc}
use native.Mathlib.Omega.{arith}
use blindfold.Prelude.Tests.{◌==◌, if◌then◌else◌, Bool-cases}
use blindfold.Prelude.Lists.{All}

abbrev pub push_first : ℕ → List (List ℕ) → List (List ℕ)
push_first c [] = (c ∷ []) ∷ []
push_first c (piece ∷ pieces) = (c ∷ piece) ∷ pieces

module _ (separator : ℕ) where
  unfoldable pub split_on : List ℕ → List (List ℕ)
  split_on [] = [] ∷ []
  split_on (c ∷ text) =
      let rest = split_on text in if c == separator then [] ∷ rest else push_first c rest

  pub split_on-filled : (text : List ℕ) → split_on text ≢ []
  unfolding split_on
  split_on-filled [] n = cc
  split_on-filled (c ∷ text) n = elim (Bool-cases (c == separator)) [
    | inl t ↦ cc (rw t at n)
    | inr f ↦ pushed c (split_on text) (rw f at n)
  ]
    where
      pushed : (c : ℕ) (pieces : List (List ℕ)) → push_first c pieces ≢ []
      pushed c [] n = cc
      pushed c (piece ∷ pieces) n = cc

  push_first-append :
      (c : ℕ) (xs ys : List (List ℕ)) → xs ≢ [] → push_first c (xs ++ ys) ≡ push_first c xs ++ ys
  push_first-append c [] ys n = absurd (n refl)
  push_first-append c (x ∷ xs) ys n = refl

  pub split_on-append :
      (xs ys : List ℕ) → split_on (xs ++ (separator ∷ ys)) ≡ split_on xs ++ split_on ys
  unfolding split_on
  split_on-append [] ys = let same : (separator == separator) ≡ true = ground arith in rw same refl
  split_on-append (c ∷ xs) ys = elim (Bool-cases (c == separator)) [
    | inl t ↦ rw t (ap (λ (l : List (List ℕ)). [] ∷ l) (split_on-append xs ys))
    | inr f ↦ rw f (
        ap (push_first c) (split_on-append xs ys)
        ∙ push_first-append c (split_on xs) (split_on ys) (split_on-filled xs))
  ]

  pub split_on-piece : (text : List ℕ) → All (λ c. c ≢ separator) text → split_on text ≡ text ∷ []
  unfolding split_on
  split_on-piece [] h = refl
  split_on-piece (c ∷ text) h =
      let other : (c == separator) ≡ false = ground (arith, h.0) in
      rw other (ap (push_first c) (split_on-piece text h.1))

-- Each line with a line feed behind it.
unfoldable pub unlines : List (List ℕ) → List ℕ
unlines [] = []
unlines (line ∷ rest) = line ++ (10 ∷ unlines rest)

pub unlines-append : (xs ys : List (List ℕ)) → unlines (xs ++ ys) ≡ unlines xs ++ unlines ys
unfolding unlines
unlines-append [] ys = refl
unlines-append (x ∷ xs) ys =
    ap (λ (l : List ℕ). x ++ (10 ∷ l)) (unlines-append xs ys)
    ∙ sym (append_assoc x (10 ∷ unlines xs) (unlines ys))
