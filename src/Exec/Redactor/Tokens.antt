-- ===== src/Exec/Redactor/Tokens.antt =====
-- The stream as tokens: what redaction means, and a reference tokenizer that has the whole stream.
use blindfold.Prelude.{
  ℕ, zero, suc, ◌-◌, ◌≤◌, ◌<◌, ◌≡◌, refl, sym, ap, subst, inl, inr, true, false, none, some, List,
  [], ◌∷◌, ◌++◌, Memᴰ, arith, Option-cases, length, take, drop, length-drop, length-take,
  take-append-drop, take-length-append, All, All-map, All-mem,
}
use blindfold.Prelude.Sorting.{Ascending}
use blindfold.Exec.Redactor.{Bytes, redaction, starts_with, match_length, longer_first}
use blindfold.Exec.Redactor.Match.{
  starts_with→eq, starts_with-length, Matches, match_length→Matches, match_length-longest,
  match_length-none,
}

pub data Token : Type 0 where
  plain : ℕ → Token
  secret : Bytes → Token

Matches-take :
    {patterns : List Bytes} {bytes : Bytes} {n : ℕ} (m : Matches patterns bytes n)
    → take n bytes ≡ m.pattern
Matches-take {bytes} m =
    let (rest, split) = starts_with→eq bytes m.pattern m.starts in
    subst (λ k. take k bytes ≡ m.pattern) m.size
      (subst (λ w. take (length m.pattern) w ≡ m.pattern) (sym split)
        (take-length-append m.pattern rest))

-- From left to right: a byte at which no pattern starts is kept; where patterns start, the longest
-- of them is one hidden token.
pub data Redacts (patterns : List Bytes) : Bytes → List Token → Type 0 where
  done : Redacts patterns [] []
  keep :
      {b : ℕ} {rest : Bytes} {ts : List Token}
      → All (λ q. starts_with (b ∷ rest) q ≡ false) patterns
      → Redacts patterns rest ts
      → Redacts patterns (b ∷ rest) (plain b ∷ ts)
  hide :
      {bytes rest : Bytes} {ts : List Token} (p : Bytes)
      → Memᴰ p patterns
      → bytes ≡ p ++ rest
      → All (λ q. starts_with bytes q ≡ true → length q ≤ length p) patterns
      → Redacts patterns rest ts
      → Redacts patterns bytes (secret p ∷ ts)

-- What is written for the tokens, and how many of them are secrets.
abbrev pub render : List Token → Bytes
render [] = []
render (plain b ∷ ts) = b ∷ render ts
render (secret p ∷ ts) = redaction ++ render ts

abbrev pub secrets : List Token → ℕ
secrets [] = 0
secrets (plain b ∷ ts) = secrets ts
secrets (secret p ∷ ts) = suc (secrets ts)

module _ (patterns : List Bytes) where
  -- The first argument counts the bytes that the last secret still covers.
  unfoldable pub tokenize : ℕ → Bytes → List Token
  tokenize skip [] = []
  tokenize (suc skip) (b ∷ bytes) = tokenize skip bytes
  tokenize zero (b ∷ bytes) = elim (match_length patterns (b ∷ bytes)) [
    | some n ↦ secret (take n (b ∷ bytes)) ∷ tokenize (n - 1) bytes
    | none ↦ plain b ∷ tokenize 0 bytes
  ]

  tokenize-skip : (n : ℕ) (bytes : Bytes) → tokenize n bytes ≡ tokenize 0 (drop n bytes)
  unfolding tokenize
  tokenize-skip zero bytes = refl
  tokenize-skip (suc n) [] = refl
  tokenize-skip (suc n) (b ∷ bytes) = tokenize-skip n bytes

  pub tokenize-plain :
      (b : ℕ) (bytes : Bytes)
      → match_length patterns (b ∷ bytes) ≡ none
      → tokenize 0 (b ∷ bytes) ≡ plain b ∷ tokenize 0 bytes
  unfolding tokenize
  tokenize-plain b bytes e = rw (e, tokenize)

  pub tokenize-secret :
      (n : ℕ) (bytes : Bytes)
      → 0 < n
      → n ≤ length bytes
      → match_length patterns bytes ≡ some n
      → tokenize 0 bytes ≡ secret (take n bytes) ∷ tokenize 0 (drop n bytes)
  unfolding tokenize
  tokenize-secret zero bytes pos fits e = absurd (omega arith)
  tokenize-secret (suc n) [] pos fits e = absurd (omega arith)
  tokenize-secret (suc n) (b ∷ bytes) pos fits e =
      let same : suc n - 1 ≡ n = omega arith in
      rw (e, tokenize, same) (ap (◌∷◌ (secret (take (suc n) (b ∷ bytes)))) (tokenize-skip n bytes))

  abbrev pub HasNoEmpty : Type 0
  HasNoEmpty = All (λ q. 0 < length q) patterns

  Redacts-tokenize_upto :
      (k : ℕ) (bytes : Bytes)
      → HasNoEmpty
      → Ascending longer_first patterns
      → length bytes ≤ k
      → Redacts patterns bytes (tokenize 0 bytes)
  Redacts-tokenize_upto k [] pos s h = unfold tokenize in Redacts.done
  Redacts-tokenize_upto zero (b ∷ bytes) pos s h = absurd (omega arith)
  Redacts-tokenize_upto (suc k) (b ∷ bytes) pos s h =
      elim (Option-cases (match_length patterns (b ∷ bytes))) [
        | inl e ↦ rw (tokenize-plain b bytes e) (
            Redacts.keep (match_length-none patterns (b ∷ bytes) e)
              (Redacts-tokenize_upto k bytes pos s (omega arith)))
        | inr (n, e) ↦
            let m = match_length→Matches patterns (b ∷ bytes) n e in
            let fits : n ≤ length (b ∷ bytes) =
              omega (arith, starts_with-length (b ∷ bytes) m.pattern m.starts, m.size) in
            let positive : 0 < n = omega (arith, All-mem _ m.listed pos, m.size) in
            let smaller : length (drop n (b ∷ bytes)) ≤ k =
              omega (arith, length-drop n (b ∷ bytes)) in
            rw (tokenize-secret n (b ∷ bytes) positive fits e) (
              Redacts.hide (take n (b ∷ bytes))
                (subst (λ q. Memᴰ q patterns) (sym (Matches-take m)) m.listed)
                (sym (take-append-drop n (b ∷ bytes)))
                (All-map _ _ (λ q le f. omega (arith, le f, length-take n (b ∷ bytes))) patterns
                  (match_length-longest patterns (b ∷ bytes) n s e))
                (Redacts-tokenize_upto k (drop n (b ∷ bytes)) pos s smaller))
      ]

  -- The reference tokenizer does what redaction means.
  pub Redacts-tokenize :
      (bytes : Bytes)
      → HasNoEmpty
      → Ascending longer_first patterns
      → Redacts patterns bytes (tokenize 0 bytes)
  Redacts-tokenize bytes pos s = Redacts-tokenize_upto (length bytes) bytes pos s (omega arith)
