-- ===== src/Vault/Operations/Listing.antt =====
-- What `list` shows can be resolved.
use blindfold.Prelude.{
  ℕ, ◌<◌, ◌≡◌, refl, sym, subst, ap, ◌∙◌, arith, Option, none, Bool, ◌&&◌, &&_true, some, List, [],
  ◌∷◌, ltb→lt, Memᴰ, All, All-mem, bytes_eq, bytes_eq→eq,
}
use blindfold.Prelude.Selection.{filter, filter-All}
use blindfold.Core.SafeRef.{Text, SafeRef, Parsed, from_id}
use blindfold.Core.SafeRef.Laws.{from_id-ok}
use blindfold.Vault.State.{
  VaultResult, ok, err, ◌>>=◌, Scope, DiskRecord, DiskState, retain, decode_kind, kind_code,
  reference_id,
}
use blindfold.Vault.State.Laws.{IsMap, lookup-mem}
use blindfold.Vault.State.Identifiers.{decode_kind-ok, reference_id-encode}
use blindfold.Vault.File.{Outside, File, read_state}
use blindfold.Vault.Operations.{
  unix_seconds, live, is_in, EntryMetadata, made_or_corrupt, from_unix_seconds, entry_of, dated,
  metadata, collected, collect, list, resolve,
}
use blindfold.Vault.Operations.Resolving.{>>=-ok, resolve_in_of_Grants, resolve-read}

made_or_corrupt-ok : (p : Parsed) (r : SafeRef) → made_or_corrupt p ≡ ok r → p ≡ Parsed.ok r
made_or_corrupt-ok (Parsed.ok q) r h = cc h
made_or_corrupt-ok (Parsed.err e) r h = cc

-- The reference of an entry is the one that was made for the record.
record Described (id : Text) (r : DiskRecord) (entry : EntryMetadata) : Type 0 where
  named : reference_id entry.safe_ref ≡ ok id
  kind : r.kind ≡ kind_code entry.safe_ref.kind
  project : entry.scope.project ≡ r.project
  session : entry.scope.session ≡ r.session
  expires : entry.expires_at ≡ r.expires_at

-- The times of an entry are those of its record.
entry_of-ok :
    (r : DiskRecord) (safe_ref : SafeRef) (created expires : Option ℕ) (entry : EntryMetadata)
    → entry_of r safe_ref created expires ≡ some (ok entry)
    → (safe_ref ≡ entry.safe_ref)
      × ((entry.scope.project ≡ r.project)
          × ((entry.scope.session ≡ r.session) × (expires ≡ some entry.expires_at)))
entry_of-ok r safe_ref none expires entry h = cc
entry_of-ok r safe_ref (some c) none entry h = cc
entry_of-ok r safe_ref (some c) (some e) entry h = (cc h, (cc h, (cc h, cc h)))

from_unix_seconds-some : (seconds time : ℕ) → from_unix_seconds seconds ≡ some time → time ≡ seconds
unfolding from_unix_seconds
from_unix_seconds-some seconds time h = ground (arith, h)

dated-ok :
    (r : DiskRecord) (made : VaultResult SafeRef) (entry : EntryMetadata)
    → dated r made ≡ some (ok entry)
    → (ref : SafeRef) × (made ≡ ok ref)
      × (ref ≡ entry.safe_ref)
      × ((entry.scope.project ≡ r.project)
          × ((entry.scope.session ≡ r.session) × (entry.expires_at ≡ r.expires_at)))
dated-ok r (err e) entry h = cc
dated-ok r (ok ref) entry h =
    let (same, (project, (session, expires))) =
      entry_of-ok r ref (from_unix_seconds r.created_at) (from_unix_seconds r.expires_at) entry h in
    (
      ref,
      refl,
      same,
      (project, (session, from_unix_seconds-some r.expires_at entry.expires_at expires)),
    )

metadata-Described :
    (id : Text) (r : DiskRecord) (entry : EntryMetadata)
    → metadata id r ≡ some (ok entry)
    → Described id r entry
unfolding metadata
metadata-Described id r entry h =
    let made = decode_kind r.kind >>= λ kind. made_or_corrupt (from_id kind id) in
    let (ref, m, whole, d) = dated-ok r made entry h in
    let (kind, decoded, m') = >>=-ok (decode_kind r.kind) _ ref m in
    let (valid, same) = from_id-ok kind id ref (made_or_corrupt-ok (from_id kind id) ref m') in
    let shown = sym same ∙ whole in
    record {
      named = ap reference_id (sym shown) ∙ reference_id-encode kind id valid;
      kind = decode_kind-ok r.kind kind decoded ∙ ap (λ (x : SafeRef). kind_code x.kind) shown;
      project = d.0;
      session = d.1.0;
      expires = d.1.1;
    }

collected-ok :
    (m : Option (VaultResult EntryMetadata)) (rest : Option (VaultResult (List EntryMetadata)))
    (entries : List EntryMetadata)
    → collected m rest ≡ some (ok entries)
    → (x : EntryMetadata) × (xs : List EntryMetadata) × (m ≡ some (ok x))
      × (rest ≡ some (ok xs))
      × (x ∷ xs ≡ entries)
collected-ok none rest entries h = cc
collected-ok (some (err e)) rest entries h = cc
collected-ok (some (ok x)) none entries h = cc
collected-ok (some (ok x)) (some (err e)) entries h = cc
collected-ok (some (ok x)) (some (ok xs)) entries h = (x, xs, refl, refl, cc h)

collect-All :
    (P : EntryMetadata → Type 0) (records : DiskState) (entries : List EntryMetadata)
    → ((id : Text) (r : DiskRecord) (entry : EntryMetadata)
        → Memᴰ (id, r) records
        → metadata id r ≡ some (ok entry)
        → P entry)
    → collect records ≡ some (ok entries)
    → All P entries
unfolding collect
collect-All P [] entries each h = let empty : [] ≡ entries = cc h in subst (All P) empty tt
collect-All P ((id, r) ∷ records) entries each h =
    let (entry, rest, m, c, whole) = collected-ok (metadata id r) (collect records) entries h in
    subst (All P) whole (
      each id r entry (Memᴰ.head refl) m,
      collect-All P records rest (λ i x e j. each i x e (Memᴰ.tail j)) c,
    )

-- An entry of the scope whose reference resolves in it.
pub record IsListed (outside : Outside) (key : Text) (now : ℕ) (file : File) (scope : Scope)
    (entry : EntryMetadata) : Type 0 where
  pub project : entry.scope.project ≡ scope.project
  pub session : entry.scope.session ≡ scope.session
  pub fresh : now < entry.expires_at
  pub value : Text
  pub resolves : resolve outside key (some now) file entry.safe_ref scope ≡ ok value

abbrev shown : Scope → ℕ → Text × DiskRecord → Bool
shown scope now entry = live now entry.1 && is_in scope entry.1

-- If the vault is readable and the entries of its state stand in the order of their keys, every entry
-- that `list` returns belongs to the given scope, has not expired, and its reference resolves in that
-- scope at that time.
pub list-IsListed :
    (outside : Outside) (key : Text) (now : ℕ) (file : File) (scope : Scope) (state : DiskState)
    (entries : List EntryMetadata)
    → IsMap state
    → read_state outside key file ≡ ok state
    → list outside key (some now) file scope ≡ some (ok entries)
    → All (IsListed outside key now file scope) entries
unfolding list unix_seconds retain
list-IsListed outside key now file scope state entries is_map readable h =
    let h' : collect (filter (shown scope now) state) ≡ some (ok entries) = rw readable at h in
    collect-All (IsListed outside key now file scope) (filter (shown scope now) state) entries
      (λ id r entry i m.
        let d = metadata-Described id r entry m in
        let (listed, t) = All-mem _ i (filter-All (shown scope now) state) in
        let (alive, inside) = &&_true (live now r) (is_in scope r) t in
        let (p, s) =
          &&_true (bytes_eq r.project scope.project) (bytes_eq r.session scope.session) inside in
        let fresh = ltb→lt now r.expires_at alive in
        record {
          project = d.project ∙ bytes_eq→eq r.project scope.project p;
          session = d.session ∙ bytes_eq→eq r.session scope.session s;
          fresh = subst (λ n. now < n) (sym d.expires) fresh;
          value = r.value;
          resolves =
              resolve-read outside key (some now) file state entry.safe_ref scope readable
              ∙ resolve_in_of_Grants state entry.safe_ref scope now r.value (record {
                id = id;
                found = r;
                named = d.named;
                listed = lookup-mem id r state is_map listed;
                fresh = fresh;
                project = bytes_eq→eq r.project scope.project p;
                session = bytes_eq→eq r.session scope.session s;
                kind = d.kind;
                is_value = refl;
              });
        })
      h'
