-- ===== src/Vault/Operations/Retaining.antt =====
-- What the vault's file and its references are after records were removed by a test.
use blindfold.Prelude.{
  ℕ, zero, suc, ◌-◌, ◌≤◌, ◌≡◌, ◌≢◌, refl, sym, subst, ap, ◌∙◌, ◌⊎◌, inl, inr, arith, Bool, true,
  false, not, ◌||◌, Option, none, some, if◌then◌else◌, Bool-cases, length, bytes_eq, bytes_eq→eq,
  bytes_eq_refl,
}
use blindfold.Prelude.Selection.{length-filter, filter_all}
use blindfold.Core.SafeRef.{Text, SafeRef}
use blindfold.Vault.State.{VaultResult, ok, err, Scope, DiskRecord, DiskState, retain}
use blindfold.Vault.State.Laws.{IsMap, lookup-retain, keep}
use blindfold.Vault.File.{Outside, File, symlink, read_state, write_state}
use blindfold.Vault.File.Laws.{IsSealable, read_state-write_state}
use blindfold.Vault.Operations.{count_written, save_removed, remove_all}
use blindfold.Vault.Operations.Resolving.{Grants}

length-retain : (p : DiskRecord → Bool) (state : DiskState) → length (retain p state) ≤ length state
unfolding retain
length-retain p state = length-filter (λ entry. p entry.1) state

retain_all :
    (p : DiskRecord → Bool) (state : DiskState)
    → length state - length (retain p state) ≡ 0
    → retain p state ≡ state
unfolding retain
retain_all p state h =
    filter_all (λ entry. p entry.1) state
      (omega (arith, h, length-filter (λ entry. p entry.1) state))

module _ (outside : Outside) (key nonce : Text) (file : File) (no_link : file ≢ symlink)
    (state : DiskState) (readable : read_state outside key file ≡ ok state) where
  -- What is in the file after records were removed.
  pub record Kept (rest : DiskState) (removed : ℕ) (out : File × VaultResult ℕ) : Type 0 where
    pub returned : out.1 ≡ ok removed
    pub reads : read_state outside key out.0 ≡ ok rest

  counted :
      (n : ℕ) (out : File × VaultResult Unit)
      → out.1 ≡ ok tt
      → ((count_written n out).0 ≡ out.0) × ((count_written n out).1 ≡ ok n)
  counted n (f, ok u) h = (refl, refl)
  counted n (f, err e) h = cc

  save_removed-Kept :
      (p : DiskRecord → Bool) (n : ℕ)
      → length state - length (retain p state) ≡ n
      → IsSealable outside key nonce (retain p state)
      → Kept (retain p state) n (save_removed outside key (some nonce) file (retain p state) n)
  save_removed-Kept p zero same sealable = record {
    returned = refl;
    reads = readable ∙ ap ok (sym (retain_all p state same));
  }
  save_removed-Kept p (suc n) same sealable =
      let (written, back) =
        read_state-write_state outside key nonce (retain p state) sealable file no_link in
      let (same_file, same_result) =
        counted (suc n) (write_state outside key (some nonce) file (retain p state)) written in
      record { returned = same_result; reads = ap (read_state outside key) same_file ∙ back }

  pub remove_all-Kept :
      (p : DiskRecord → Bool)
      → IsSealable outside key nonce (retain p state)
      → Kept
          (retain p state)
          (length state - length (retain p state))
          (remove_all p outside key (some nonce) file (read_state outside key file))
  remove_all-Kept p sealable =
      subst
        (λ m.
          Kept (retain p state) (length state - length (retain p state))
            (remove_all p outside key (some nonce) file m))
        (sym readable) (save_removed-Kept p (length state - length (retain p state)) refl sealable)

kept_some :
    (b : Bool) (r found : DiskRecord)
    → (if b then some r else none) ≡ some found
    → (b ≡ true) × (r ≡ found)
kept_some true r found h = (refl, cc h)
kept_some false r found h = cc

pub keep-some :
    (p : DiskRecord → Bool) (o : Option DiskRecord) (found : DiskRecord)
    → keep p o ≡ some found
    → (o ≡ some found) × (p found ≡ true)
keep-some p none found h = cc
keep-some p (some r) found h =
    let (t, same) = kept_some (p r) r found h in (ap some same, subst (λ x. p x ≡ true) same t)

abbrev pub outside_of : Scope → DiskRecord → Bool
outside_of scope r =
    not (bytes_eq r.project scope.project) || not (bytes_eq r.session scope.session)

pub outside_of-false :
    (scope : Scope) (r : DiskRecord)
    → r.project ≡ scope.project
    → r.session ≡ scope.session
    → outside_of scope r ≡ false
outside_of-false scope r p s =
    let a : bytes_eq r.project scope.project ≡ true =
      ap (bytes_eq r.project) (sym p) ∙ bytes_eq_refl r.project in
    let b : bytes_eq r.session scope.session ≡ true =
      ap (bytes_eq r.session) (sym s) ∙ bytes_eq_refl r.session in
    rw (a, b)

pub outside_of-true :
    (scope other : Scope) (r : DiskRecord)
    → (other.project ≢ scope.project) ⊎ (other.session ≢ scope.session)
    → r.project ≡ other.project
    → r.session ≡ other.session
    → outside_of scope r ≡ true
outside_of-true scope other r d p s = elim (Bool-cases (bytes_eq r.project scope.project)) [
  | inl t ↦ elim (Bool-cases (bytes_eq r.session scope.session)) [
    | inl u ↦ elim d [
      | inl n ↦ absurd (n (sym p ∙ bytes_eq→eq r.project scope.project t))
      | inr n ↦ absurd (n (sym s ∙ bytes_eq→eq r.session scope.session u))
    ]
    | inr g ↦ rw (t, g)
  ]
  | inr f ↦ rw f
]

-- A grant that is kept by a removal.
pub Grants-retain :
    (p : DiskRecord → Bool) (state : DiskState) (r : SafeRef) (scope : Scope) (now : ℕ)
    (value : Text)
    → IsMap state
    → (g : Grants state r scope now value) → p g.found ≡ true
    → Grants (retain p state) r scope now value
Grants-retain p state r scope now value m g t = record {
  id = g.id;
  found = g.found;
  named = g.named;
  listed =
      lookup-retain p g.id state m
      ∙ ap (keep p) g.listed
      ∙ ap (λ b. if b then some g.found else none) t;
  fresh = g.fresh;
  project = g.project;
  session = g.session;
  kind = g.kind;
  is_value = g.is_value;
}
