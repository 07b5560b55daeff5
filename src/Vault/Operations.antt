-- ===== src/Vault/Operations.antt =====
-- crates/blindfold-vault/src/vault.rs: the operations of `Vault`. The clock is read as seconds since
-- the epoch, with `none` before it. `draws` are the results of `getrandom::fill` for identifiers, in
-- their order; it fails behind the last one. The lock file keeps other processes out.
pub mod Storing
pub mod Resolving
pub mod Retaining
pub mod Removing
pub mod Listing
use blindfold.Prelude.{
  ℕ, zero, suc, ◌+◌, ◌-◌, ◌^◌, Bool, true, false, not, ◌&&◌, ◌||◌, Option, none, some, List, [],
  ◌∷◌, ltb, leb, ◌==◌, if◌then◌else◌, length, bytes_eq,
}
use blindfold.Core.SafeRef.{Text, SafeRefKind, SafeRef, Parsed, from_id}
use blindfold.Vault.State.{
  VaultError, invalid_input, randomness_unavailable, corrupt_or_wrong_key, reference_rejected,
  VaultResult, ok, err, ◌>>=◌, Scope, DiskRecord, DiskState, lookup, insert, retain, kind_code,
  decode_kind, encode_hex, or_reject, reference_id,
}
use blindfold.Vault.File.{Outside, File, read_state, write_state}

abbrev pub u64_max : ℕ
u64_max = 2 ^ 64 - 1

pub record Duration : Type 0 where
  pub seconds : ℕ
  pub nanoseconds : ℕ

unfoldable pub unix_seconds : Option ℕ → VaultResult ℕ
unix_seconds none = err invalid_input
unix_seconds (some seconds) = ok seconds

abbrev is_empty : Text → Bool
is_empty [] = true
is_empty (b ∷ text) = false

-- The checks of `store` before the vault is read, and the time at which the record expires.
unfoldable pub expiry : Duration → ℕ → VaultResult ℕ
expiry ttl now =
    if ltb u64_max (now + ttl.seconds)
    then err invalid_input
    else if now + ttl.seconds == now
    then err invalid_input
    else ok (now + ttl.seconds)

abbrev pub is_refused : Text → Duration → Bool
is_refused value ttl = is_empty value || (ttl.seconds == 0 && ttl.nanoseconds == 0)

abbrev pub is_some {ℓ} : {A : Type ℓ} → Option A → Bool
is_some none = false
is_some (some a) = true

-- The loop that draws an identifier which is not in use.
unfoldable pub pick_id : DiskState → List Text → VaultResult Text
unfolding lookup encode_hex
pick_id state [] = err randomness_unavailable
pick_id state (drawn ∷ draws) =
    let rest = pick_id state draws in
    if is_some (lookup (encode_hex drawn) state) then rest else ok (encode_hex drawn)

abbrev pub made : Parsed → VaultResult SafeRef
made (Parsed.ok r) = ok r
made (Parsed.err e) = err invalid_input

abbrev pub live : ℕ → DiskRecord → Bool
live now r = ltb now r.expires_at

abbrev pub new_record : SafeRefKind → Scope → Text → ℕ → ℕ → DiskRecord
new_record kind scope value now expires = record {
  kind = kind_code kind;
  project = scope.project;
  session = scope.session;
  created_at = now;
  expires_at = expires;
  value = value;
}

-- The reference of a new record, and the state with it.
unfoldable pub add_record :
    DiskState → SafeRefKind → Scope → Text → ℕ → ℕ → List Text → VaultResult (SafeRef × DiskState)
unfolding retain pick_id insert kind_code
add_record state kind scope value now expires draws = do
  id ← pick_id (retain (live now) state) draws
  r ← made (from_id kind id)
  ok (r, insert id (new_record kind scope value now expires) (retain (live now) state))

abbrev pub finish_store : SafeRef → File × VaultResult Unit → File × VaultResult SafeRef
finish_store r (file, ok u) = (file, ok r)
finish_store r (file, err e) = (file, err e)

abbrev pub save :
    Outside
    → Text
    → Option Text
    → File
    → VaultResult (SafeRef × DiskState)
    → File × VaultResult SafeRef
save outside key drawn file (err e) = (file, err e)
save outside key drawn file (ok (r, state)) =
    finish_store r (write_state outside key drawn file state)

-- `Vault::store`
unfoldable pub store :
    Outside
    → Text
    → Option Text
    → List Text
    → Option ℕ
    → File
    → SafeRefKind
    → Scope
    → Text
    → Duration
    → File × VaultResult SafeRef
unfolding unix_seconds expiry read_state add_record
store outside key drawn draws clock file kind scope value ttl = save outside key drawn file (
    if is_refused value ttl then err invalid_input else (do
      now ← unix_seconds clock
      expires ← expiry ttl now
      state ← read_state outside key file
      add_record state kind scope value now expires draws))

-- The conditions under which `resolve` rejects a record that is there.
unfoldable pub is_rejected : SafeRef → Scope → ℕ → DiskRecord → Bool
unfolding bytes_eq kind_code
is_rejected r scope now found =
    leb found.expires_at now
    || (not (bytes_eq found.project scope.project)
        || (not (bytes_eq found.session scope.session) || not (found.kind == kind_code r.kind)))

unfoldable pub resolve_in : DiskState → SafeRef → Scope → Option ℕ → VaultResult Text
unfolding reference_id lookup unix_seconds is_rejected
resolve_in state r scope clock = do
  id ← reference_id r
  found ← or_reject (lookup id state)
  now ← unix_seconds clock
  if is_rejected r scope now found then err reference_rejected else ok found.value

-- `Vault::resolve`
unfoldable pub resolve : Outside → Text → Option ℕ → File → SafeRef → Scope → VaultResult Text
unfolding read_state resolve_in
resolve outside key clock file r scope = do
  state ← read_state outside key file
  resolve_in state r scope clock

abbrev pub count_written : ℕ → File × VaultResult Unit → File × VaultResult ℕ
count_written removed (file, ok u) = (file, ok removed)
count_written removed (file, err e) = (file, err e)

-- The file is written only if records were removed.
abbrev pub save_removed : Outside → Text → Option Text → File → DiskState → ℕ → File × VaultResult ℕ
save_removed outside key drawn file state zero = (file, ok zero)
save_removed outside key drawn file state (suc n) =
    count_written (suc n) (write_state outside key drawn file state)

abbrev pub remove_all :
    (DiskRecord → Bool)
    → Outside
    → Text
    → Option Text
    → File
    → VaultResult DiskState
    → File × VaultResult ℕ
remove_all keep outside key drawn file (err e) = (file, err e)
remove_all keep outside key drawn file (ok state) =
    save_removed outside key drawn file (retain keep state)
      (length state - length (retain keep state))

abbrev pub is_in : Scope → DiskRecord → Bool
is_in scope r = bytes_eq r.project scope.project && bytes_eq r.session scope.session

-- `Vault::clear`
unfoldable pub clear : Outside → Text → Option Text → File → Scope → File × VaultResult ℕ
unfolding read_state retain write_state bytes_eq
clear outside key drawn file scope =
    remove_all
      (λ r. not (bytes_eq r.project scope.project) || not (bytes_eq r.session scope.session))
      outside key drawn file (read_state outside key file)

-- The state is read before the clock.
abbrev pub purge_state :
    Outside
    → Text
    → Option Text
    → File
    → VaultResult DiskState
    → VaultResult ℕ
    → File × VaultResult ℕ
purge_state outside key drawn file (err e) now = (file, err e)
purge_state outside key drawn file (ok state) (err e) = (file, err e)
purge_state outside key drawn file (ok state) (ok now) =
    remove_all (live now) outside key drawn file (ok state)

-- `Vault::purge_expired`
unfoldable pub purge_expired : Outside → Text → Option Text → Option ℕ → File → File × VaultResult ℕ
unfolding read_state retain write_state unix_seconds
purge_expired outside key drawn clock file =
    purge_state outside key drawn file (read_state outside key file) (unix_seconds clock)

pub record EntryMetadata : Type 0 where
  pub safe_ref : SafeRef
  pub scope : Scope
  pub created_at : ℕ
  pub expires_at : ℕ

abbrev pub made_or_corrupt : Parsed → VaultResult SafeRef
made_or_corrupt (Parsed.ok r) = ok r
made_or_corrupt (Parsed.err e) = err corrupt_or_wrong_key

-- `UNIX_EPOCH + Duration::from_secs(…)`, which panics (`none`) if an `i64` does not hold the seconds
unfoldable pub from_unix_seconds : ℕ → Option ℕ
from_unix_seconds seconds = if ltb (2 ^ 63 - 1) seconds then none else some seconds

abbrev pub entry_of :
    DiskRecord → SafeRef → Option ℕ → Option ℕ → Option (VaultResult EntryMetadata)
entry_of r safe_ref (some created_at) (some expires_at) = some (
    ok (record {
      safe_ref = safe_ref;
      scope = record { project = r.project; session = r.session };
      created_at = created_at;
      expires_at = expires_at;
    }))
entry_of r safe_ref _ _ = none

abbrev pub dated : DiskRecord → VaultResult SafeRef → Option (VaultResult EntryMetadata)
dated r (err e) = some (err e)
dated r (ok safe_ref) =
    entry_of r safe_ref (from_unix_seconds r.created_at) (from_unix_seconds r.expires_at)

-- `none` is a panic, here and in what calls it.
unfoldable pub metadata : Text → DiskRecord → Option (VaultResult EntryMetadata)
unfolding decode_kind from_unix_seconds
metadata id r = dated r (decode_kind r.kind >>= λ kind. made_or_corrupt (from_id kind id))

abbrev pub collected :
    Option (VaultResult EntryMetadata)
    → Option (VaultResult (List EntryMetadata))
    → Option (VaultResult (List EntryMetadata))
collected none rest = none
collected (some (err e)) rest = some (err e)
collected (some (ok entry)) none = none
collected (some (ok entry)) (some (err e)) = some (err e)
collected (some (ok entry)) (some (ok entries)) = some (ok (entry ∷ entries))

-- `map(metadata).collect()`, which stops at the first error
unfoldable pub collect : DiskState → Option (VaultResult (List EntryMetadata))
unfolding metadata
collect [] = some (ok [])
collect ((id, r) ∷ records) = collected (metadata id r) (collect records)

abbrev pub list_in :
    Scope → VaultResult DiskState → VaultResult ℕ → Option (VaultResult (List EntryMetadata))
list_in scope (err e) now = some (err e)
list_in scope (ok state) (err e) = some (err e)
list_in scope (ok state) (ok now) = collect (retain (λ r. live now r && is_in scope r) state)

-- `Vault::list`
unfoldable pub list :
    Outside → Text → Option ℕ → File → Scope → Option (VaultResult (List EntryMetadata))
unfolding read_state unix_seconds collect retain bytes_eq
list outside key clock file scope = list_in scope (read_state outside key file) (unix_seconds clock)
