-- ===== src/Vault/Operations/Resolving.antt =====
-- When a reference is resolved, and to what.
use blindfold.Prelude.{
  ℕ, ◌<◌, ◌≡◌, ◌↔◌, refl, sym, ap, ◌∙◌, arith, Bool, true, false, Option, none, some, if◌then◌else◌,
  bytes_eq, bytes_eq→eq, bytes_eq_refl,
}
use blindfold.Core.SafeRef.{Text, SafeRef}
use blindfold.Vault.State.{
  reference_rejected, VaultResult, ok, err, ◌>>=◌, Scope, DiskRecord, DiskState, lookup, kind_code,
  or_reject, reference_id,
}
use blindfold.Vault.File.{Outside, File, read_state}
use blindfold.Vault.Operations.{unix_seconds, is_rejected, resolve_in, resolve}

pub >>=-ok :
    {A B : Type 0} (m : VaultResult A) (k : A → VaultResult B) (b : B)
    → (m >>= k) ≡ ok b
    → (a : A) × (m ≡ ok a) × (k a ≡ ok b)
>>=-ok (ok a) k b h = (a, refl, h)
>>=-ok (err e) k b h = cc

-- A record that the reference names, of its kind, in the scope, and not expired.
pub record Grants (state : DiskState) (r : SafeRef) (scope : Scope) (now : ℕ) (value : Text)
    : Type 0 where
  pub id : Text
  pub found : DiskRecord
  pub named : reference_id r ≡ ok id
  pub listed : lookup id state ≡ some found
  pub fresh : now < found.expires_at
  pub project : found.project ≡ scope.project
  pub session : found.session ≡ scope.session
  pub kind : found.kind ≡ kind_code r.kind
  pub is_value : found.value ≡ value

is_rejected-false :
    (r : SafeRef) (scope : Scope) (now : ℕ) (found : DiskRecord)
    → is_rejected r scope now found ≡ false
    → (now < found.expires_at)
      × (bytes_eq found.project scope.project ≡ true)
      × (bytes_eq found.session scope.session ≡ true)
      × (found.kind ≡ kind_code r.kind)
unfolding is_rejected
is_rejected-false r scope now found h = ground (arith, h)

is_rejected_of_granted :
    (r : SafeRef) (scope : Scope) (now : ℕ) (found : DiskRecord)
    → now < found.expires_at
    → found.project ≡ scope.project
    → found.session ≡ scope.session
    → found.kind ≡ kind_code r.kind
    → is_rejected r scope now found ≡ false
unfolding is_rejected
is_rejected_of_granted r scope now found h p s k =
    let same_project : bytes_eq found.project scope.project ≡ true =
      ap (bytes_eq found.project) (sym p) ∙ bytes_eq_refl found.project in
    let same_session : bytes_eq found.session scope.session ≡ true =
      ap (bytes_eq found.session) (sym s) ∙ bytes_eq_refl found.session in
    ground (arith, h, same_project, same_session, k)

or_reject-ok : {A : Type 0} (o : Option A) (a : A) → or_reject o ≡ ok a → o ≡ some a
or_reject-ok none a h = cc
or_reject-ok (some b) a h = cc

granted_value :
    (rejected : Bool) (found value : Text)
    → (if rejected then err reference_rejected else ok found) ≡ ok value
    → (rejected ≡ false) × (found ≡ value)
granted_value true found value h = cc
granted_value false found value h = (refl, cc h)

pub resolve_in-Grants :
    (state : DiskState) (r : SafeRef) (scope : Scope) (now : ℕ) (value : Text)
    → resolve_in state r scope (some now) ≡ ok value
    → Grants state r scope now value
unfolding resolve_in unix_seconds
resolve_in-Grants state r scope now value h =
    let (id, named, h') = >>=-ok (reference_id r) _ value h in
    let (found, listed, h'') = >>=-ok (or_reject (lookup id state)) _ value h' in
    let (allowed, same) = granted_value (is_rejected r scope now found) found.value value h'' in
    let (fresh, project, session, kind) = is_rejected-false r scope now found allowed in
    record {
      id = id;
      found = found;
      named = named;
      listed = or_reject-ok (lookup id state) found listed;
      fresh = fresh;
      project = bytes_eq→eq found.project scope.project project;
      session = bytes_eq→eq found.session scope.session session;
      kind = kind;
      is_value = same;
    }

pub resolve_in_of_Grants :
    (state : DiskState) (r : SafeRef) (scope : Scope) (now : ℕ) (value : Text)
    → Grants state r scope now value
    → resolve_in state r scope (some now) ≡ ok value
unfolding resolve_in unix_seconds
resolve_in_of_Grants state r scope now value g =
    let allowed = is_rejected_of_granted r scope now g.found g.fresh g.project g.session g.kind in
    rw (g.named, g.listed, allowed) (ap ok g.is_value)

pub resolve-read :
    (outside : Outside) (key : Text) (clock : Option ℕ) (file : File) (state : DiskState)
    (r : SafeRef) (scope : Scope)
    → read_state outside key file ≡ ok state
    → resolve outside key clock file r scope ≡ resolve_in state r scope clock
unfolding resolve
resolve-read outside key clock file state r scope h =
    ap (λ m. m >>= λ st. resolve_in st r scope clock) h

-- `resolve` returns a value exactly if the vault is read with the key, and it has a record under the
-- reference's identifier that is of the reference's kind, belongs to the given project and session,
-- has not expired, and holds the value.
pub resolve_iff :
    (outside : Outside) (key : Text) (now : ℕ) (file : File) (r : SafeRef) (scope : Scope)
    (value : Text)
    → (resolve outside key (some now) file r scope ≡ ok value) ↔ (
        (state : DiskState) × (read_state outside key file ≡ ok state)
        × Grants state r scope now value)
resolve_iff outside key now file r scope value = (
  λ h.
      let (state, read, k) =
        >>=-ok (read_state outside key file) (λ st. resolve_in st r scope (some now)) value
          (unfold resolve in h) in
      (state, read, resolve_in-Grants state r scope now value k),
  λ h.
      let (state, read, g) = h in
      resolve-read outside key (some now) file state r scope read
      ∙ resolve_in_of_Grants state r scope now value g,
)
