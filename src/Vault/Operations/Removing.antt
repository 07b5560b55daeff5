-- ===== src/Vault/Operations/Removing.antt =====
-- What `clear` and `purge_expired` remove, and what they leave.
use blindfold.Prelude.{
  All, All-map, ltb→lt, lt→ltb, if◌then◌else◌, none, ◌<◌, ◌↔◌, ℕ, ◌-◌, ◌≤◌, ◌≡◌, ◌≢◌, sym, ap, ◌∙◌,
  ◌⊎◌, arith, true, some, length,
}
use blindfold.Prelude.Selection.{filter, filter-All}
use blindfold.Core.SafeRef.{Text, SafeRef}
use blindfold.Vault.State.{DiskRecord, VaultResult, ok, Scope, DiskState, lookup, retain}
use blindfold.Vault.State.Laws.{IsMap, lookup-retain, keep}
use blindfold.Vault.File.{Outside, File, symlink, read_state}
use blindfold.Vault.File.Laws.{IsSealable}
use blindfold.Vault.Operations.{
  unix_seconds, live, remove_all, clear, purge_state, purge_expired, resolve,
}
use blindfold.Vault.Operations.Resolving.{resolve_in-Grants, resolve_in_of_Grants, resolve-read}
use blindfold.Vault.Operations.Retaining.{
  remove_all-Kept, keep-some, outside_of, outside_of-false, outside_of-true, Grants-retain,
}

-- What is left after a scope was cleared.
pub record ClearedScope (outside : Outside) (key : Text) (before : File) (scope : Scope)
    (removed : ℕ) (out : File × VaultResult ℕ) : Type 0 where
  pub returned : out.1 ≡ ok removed
  pub nothing :
      (now : ℕ) (r : SafeRef) (value : Text)
      → resolve outside key (some now) out.0 r scope ≢ ok value
  pub others :
      (now : ℕ) (r : SafeRef) (other : Scope) (value : Text)
      → (other.project ≢ scope.project) ⊎ (other.session ≢ scope.session)
      → resolve outside key (some now) before r other ≡ ok value
      → resolve outside key (some now) out.0 r other ≡ ok value

-- What is left after expired records were purged from a vault with the records of `state`.
pub record Purged (outside : Outside) (key : Text) (before : File) (state : DiskState) (now : ℕ)
    (out : File × VaultResult ℕ) : Type 0 where
  pub left : DiskState
  pub reads : read_state outside key out.0 ≡ ok left
  pub fresh : All (λ (entry : Text × DiskRecord). now < entry.1.expires_at) left
  pub unchanged :
      (id : Text) (r : DiskRecord)
      → (lookup id left ≡ some r) ↔ ((lookup id state ≡ some r) × (now < r.expires_at))
  pub returned : out.1 ≡ ok (length state - length left)
  pub gone :
      (time : ℕ) (r : SafeRef) (scope : Scope) (value : Text)
      → resolve outside key (some time) out.0 r scope ≡ ok value
      → resolve outside key (some now) before r scope ≡ ok value
  pub resolved :
      (later : ℕ) (r : SafeRef) (scope : Scope) (value : Text)
      → now ≤ later
      → resolve outside key (some later) before r scope ≡ ok value
      → resolve outside key (some later) out.0 r scope ≡ ok value

retain-fresh :
    (now : ℕ) (state : DiskState)
    → All (λ (entry : Text × DiskRecord). now < entry.1.expires_at) (retain (live now) state)
unfolding retain
retain-fresh now state =
    All-map _ _ (λ entry h. ltb→lt now entry.1.expires_at h.1) (filter (λ e. live now e.1) state)
      (filter-All (λ e. live now e.1) state)

module _ (outside : Outside) (key nonce : Text) (file : File) (no_link : file ≢ symlink)
    (state : DiskState) (is_map : IsMap state)
    (readable : read_state outside key file ≡ ok state) where
  -- Let the file be readable and no symbolic link, let the entries of its state stand in the order of
  -- their keys, and let what is left of the state be encrypted and decrypted faithfully. Then `clear`
  -- returns how many records it removed; no reference resolves in the scope any more, and every
  -- reference that resolved in a scope with another project or session still resolves to the same
  -- value.
  pub clear-ClearedScope :
      (scope : Scope)
      → IsSealable outside key nonce (retain (outside_of scope) state)
      → ClearedScope outside key file scope
          (length state - length (retain (outside_of scope) state))
          (clear outside key (some nonce) file scope)
  unfolding clear
  clear-ClearedScope scope sealable =
      let rest = retain (outside_of scope) state in
      let k =
        remove_all-Kept outside key nonce file no_link state readable (outside_of scope) sealable in
      record {
        returned = k.returned;
        nothing = λ now r value h.
            let g =
              resolve_in-Grants rest r scope now value
                (sym (resolve-read outside key (some now) _ rest r scope k.reads) ∙ h) in
            let (_, t) =
              keep-some (outside_of scope) (lookup g.id state) g.found
                (sym (lookup-retain (outside_of scope) g.id state is_map) ∙ g.listed) in
            cc (t, outside_of-false scope g.found g.project g.session);
        others = λ now r other value d h.
            let g =
              resolve_in-Grants state r other now value
                (sym (resolve-read outside key (some now) file state r other readable) ∙ h) in
            resolve-read outside key (some now) _ rest r other k.reads
            ∙ resolve_in_of_Grants rest r other now value (
                Grants-retain (outside_of scope) state r other now value is_map g
                  (outside_of-true scope other g.found d g.project g.session));
      }

  -- Let the file be readable and no symbolic link, let the entries of its state stand in the order of
  -- their keys, and let what is left of the state be encrypted and decrypted faithfully. Then
  -- `purge_expired` at a time leaves a file that reads as a state whose records all expire later than
  -- that time and which has, under any identifier, just the record that was there if it expires later;
  -- it returns how many fewer they are. A reference that resolves in it, at whatever time, resolved
  -- before at that one to the same value, and every reference that resolved at that time or would at
  -- a later one still does, to the same value.
  pub purge_expired-Purged :
      (now : ℕ)
      → IsSealable outside key nonce (retain (live now) state)
      → Purged outside key file state now (purge_expired outside key (some nonce) (some now) file)
  unfolding purge_expired unix_seconds
  purge_expired-Purged now sealable =
      let rest = retain (live now) state in
      let run : purge_state outside key (some nonce) file (read_state outside key file) (ok now)
          ≡ remove_all (live now) outside key (some nonce) file (read_state outside key file) =
        ap (λ m. purge_state outside key (some nonce) file m (ok now)) readable
        ∙ ap (remove_all (live now) outside key (some nonce) file) (sym readable) in
      let k = remove_all-Kept outside key nonce file no_link state readable (live now) sealable in
      let reads = ap (λ x. read_state outside key x.0) run ∙ k.reads in
      record {
        left = rest;
        reads = reads;
        fresh = retain-fresh now state;
        unchanged = λ id r. (
          (λ e.
              let (there, t) =
                keep-some (live now) (lookup id state) r
                  (sym (lookup-retain (live now) id state is_map) ∙ e) in
              (there, ltb→lt now r.expires_at t)),
          (λ h.
              lookup-retain (live now) id state is_map
              ∙ ap (keep (live now)) h.0
              ∙ ap (λ b. if b then some r else none) (lt→ltb now r.expires_at h.1)),
        );
        returned = ap (λ x. x.1) run ∙ k.returned;
        gone = λ time r scope value h.
            let g =
              resolve_in-Grants rest r scope time value
                (sym (resolve-read outside key (some time) _ rest r scope reads) ∙ h) in
            let (there, t) =
              keep-some (live now) (lookup g.id state) g.found
                (sym (lookup-retain (live now) g.id state is_map) ∙ g.listed) in
            resolve-read outside key (some now) file state r scope readable
            ∙ resolve_in_of_Grants state r scope now value (record {
              id = g.id;
              found = g.found;
              named = g.named;
              listed = there;
              fresh = ltb→lt now g.found.expires_at t;
              project = g.project;
              session = g.session;
              kind = g.kind;
              is_value = g.is_value;
            });
        resolved = λ later r scope value le h.
            let g =
              resolve_in-Grants state r scope later value
                (sym (resolve-read outside key (some later) file state r scope readable) ∙ h) in
            let alive : live now g.found ≡ true = ground (arith, le, g.fresh) in
            resolve-read outside key (some later) _ rest r scope reads
            ∙ resolve_in_of_Grants rest r scope later value
                (Grants-retain (live now) state r scope later value is_map g alive);
      }
