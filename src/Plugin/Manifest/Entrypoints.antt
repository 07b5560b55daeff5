-- ===== src/Plugin/Manifest/Entrypoints.antt =====
-- crates/blindfold-plugin-api/src/lib.rs: the entry points that are accepted.
use blindfold.Prelude.{
  ℕ, ◌≤◌, ◌≡◌, ◌≢◌, ◌⊎◌, refl, sym, ap, ◌∙◌, arith, Bool, true, false, not, none, List, [], ◌∷◌,
  ltb, ◌==◌, &&_true, length, codes, All, bytes_eq,
}
use blindfold.Core.SafeRef.{Text}
use blindfold.Plugin.Manifest.{
  invalid_entrypoint, all, split_by, is_path_byte, validate_entrypoint, is_part, ends_with_slash,
  is_empty, starts_with_slash,
}
use blindfold.Plugin.Manifest.Checks.{refuse-none, not-false, ||_false}

abbrev pub IsLower : ℕ → Type 0
IsLower b = (97 ≤ b) × (b ≤ 122)

abbrev pub IsDigit : ℕ → Type 0
IsDigit b = (48 ≤ b) × (b ≤ 57)

abbrev pub IsAlphanumeric : ℕ → Type 0
IsAlphanumeric b = IsDigit b ⊎ (IsLower b ⊎ ((65 ≤ b) × (b ≤ 90)))

-- What stands between slashes, none of which leads out of a directory.
abbrev pub IsPart : Text → Type 0
IsPart part = (part ≢ []) × ((part ≢ codes ".") × (part ≢ codes ".."))

abbrev pub IsPathByte : ℕ → Type 0
IsPathByte b = IsAlphanumeric b ⊎ ((b ≡ 47) ⊎ ((b ≡ 46) ⊎ ((b ≡ 95) ⊎ (b ≡ 45))))

-- A path below the directory of the plugin.
pub record IsEntrypoint (path : Text) : Type 0 where
  pub short : length path ≤ 240
  pub parts : All IsPart (split_by (λ b. b == 47) path)
  pub bytes : All IsPathByte path

module _ {ℓ} {A : Type ℓ} (p : A → Bool) (P : A → Type 0) (sound : (x : A) → p x ≡ true → P x) where
  all-All : (xs : List A) → all p xs ≡ true → All P xs
  unfolding all
  all-All [] h = tt
  all-All (x ∷ xs) h = let (a, b) = &&_true (p x) (all p xs) h in (sound x a, all-All xs b)

is_part-IsPart : (part : Text) → is_part part ≡ true → IsPart part
unfolding is_part bytes_eq
is_part-IsPart part h =
    let differs : (other : Text) → is_part other ≡ false → part ≢ other =
      (λ other no e. let clash = sym no ∙ sym (ap is_part e) ∙ h in cc) in
    (differs [] refl, (differs (codes ".") refl, differs (codes "..") refl))

is_path_byte-IsPathByte : (b : ℕ) → is_path_byte b ≡ true → IsPathByte b
is_path_byte-IsPathByte b h = ground arith

pub validate_entrypoint-IsEntrypoint :
    (path : Text) → validate_entrypoint path ≡ none → IsEntrypoint path
unfolding validate_entrypoint
validate_entrypoint-IsEntrypoint path h =
    let tests = refuse-none _ invalid_entrypoint h in
    let (_, sized) = ||_false (is_empty path) _ tests in
    let (short, rooted) = ||_false (ltb 240 (length path)) _ sized in
    let (_, ended) = ||_false (starts_with_slash path) _ rooted in
    let (_, split) = ||_false (ends_with_slash path) _ ended in
    let (parts, bytes) = ||_false (not (all is_part (split_by (λ b. b == 47) path))) _ split in
    record {
      short = ground (arith, short);
      parts =
          all-All is_part IsPart is_part-IsPart (split_by (λ b. b == 47) path)
            (not-false (all is_part (split_by (λ b. b == 47) path)) parts);
      bytes =
          all-All is_path_byte IsPathByte is_path_byte-IsPathByte path
            (not-false (all is_path_byte path) bytes);
    }
