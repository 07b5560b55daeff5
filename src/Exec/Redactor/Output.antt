-- ===== src/Exec/Redactor/Output.antt =====
-- The bounded output holds a prefix of what was written, and knows whether it is a proper one.
use native.Mathlib.Decide.{dec_le}
use blindfold.Prelude.{
  ℕ, zero, suc, ◌+◌, ◌-◌, min, ◌≡◌, refl, sym, ap, ◌∙◌, ◌||◌, [], ◌∷◌, ◌++◌, arith, ltb, length,
  take, take_all, length-append, length-take,
}
use blindfold.Exec.Redactor.{Bytes, BoundedOutput, push_output}

take-append : (n : ℕ) (xs ys : Bytes) → take n (xs ++ ys) ≡ take n xs ++ take (n - length xs) ys
take-append zero [] ys = refl
take-append (suc n) [] ys = let e : suc n ≡ suc n - 0 = omega arith in ap (λ k. take k ys) e
take-append zero (x ∷ xs) ys =
    let e : 0 ≡ 0 - suc (length xs) = omega arith in ap (λ k. take k ys) e
take-append (suc n) (x ∷ xs) ys =
    let e : n - length xs ≡ suc n - suc (length xs) = omega arith in
    ap (◌∷◌ x) (take-append n xs ys ∙ ap (λ k. take n xs ++ take k ys) e)

take-min : (n : ℕ) (xs : Bytes) → take (min n (length xs)) xs ≡ take n xs
take-min n xs = elim (dec_le n (length xs)) [
  | yes p ↦ let e : min n (length xs) ≡ n = omega arith in ap (λ k. take k xs) e
  | no p ↦
      let whole : min n (length xs) ≡ length xs = omega arith in
      rw whole (take_all (length xs) xs (omega arith) ∙ sym (take_all n xs (omega arith)))
]

pub record Shows (out : BoundedOutput) (limit : ℕ) (written : Bytes) : Type 0 where
  pub bound : out.limit ≡ limit
  pub shown : out.bytes ≡ take limit written
  pub cut : out.truncated ≡ ltb limit (length written)

room : (limit n : ℕ) → limit - min limit n ≡ limit - n
room limit n = omega arith

shown-push :
    (limit : ℕ) (w b : Bytes)
    → take limit w ++ take (min (limit - length (take limit w)) (length b)) b ≡ take limit (w ++ b)
shown-push limit w b =
    rw (length-take limit w, room limit (length w), take-min (limit - length w) b)
      (sym (take-append limit w b))

cut-push :
    (limit m n : ℕ) → (ltb limit m || ltb (min (limit - min limit m) n) n) ≡ ltb limit (m + n)
cut-push limit m n = ground arith

pub push_output-Shows :
    {out : BoundedOutput} {limit : ℕ} {w : Bytes} (b : Bytes)
    → Shows out limit w
    → Shows (push_output out b) limit (w ++ b)
unfolding push_output
push_output-Shows {out} {limit} {w} b s = record {
  bound = s.bound;
  shown = rw (s.bound, s.shown) (shown-push limit w b);
  cut =
      rw (s.bound, s.shown, s.cut, length-append w b, length-take limit w)
        (cut-push limit (length w) (length b));
}
