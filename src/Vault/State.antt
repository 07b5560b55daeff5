-- ===== src/Vault/State.antt =====
-- crates/blindfold-vault/src/vault.rs: what the vault keeps, and the map of the records. A `BTreeMap`
-- is the list of its entries in the order of their keys.
pub mod Laws
pub mod Identifiers
use blindfold.Prelude.{
  ℕ, ◌/◌, ◌%◌, ◌+◌, Bool, true, false, ◌||◌, Option, none, some, List, [], ◌∷◌, ◌++◌, ltb, leb,
  ◌==◌, if◌then◌else◌, length, bytes_eq,
}
use blindfold.Prelude.Selection.{filter}
use blindfold.Core.SafeRef.{
  Text, SafeRefKind, secret, environment, personally_identifiable_information, private_key,
  certificate, SafeRef, strip_suffix, reference_suffix,
}

pub data VaultError : Type 0 where
  invalid_input storage_unavailable randomness_unavailable : VaultError
  corrupt_or_wrong_key reference_rejected : VaultError

pub data VaultResult (A : Type 0) : Type 0 where
  ok : A → VaultResult A
  err : VaultError → VaultResult A

infixl 5 ◌>>=◌
abbrev pub ◌>>=◌ : {A B : Type 0} → VaultResult A → (A → VaultResult B) → VaultResult B
ok a >>= k = k a
err e >>= k = err e

pub record Scope : Type 0 where
  pub project : Text
  pub session : Text

pub record DiskRecord : Type 0 where
  pub kind : ℕ
  pub project : Text
  pub session : Text
  pub created_at : ℕ
  pub expires_at : ℕ
  pub value : Text

abbrev pub DiskState : Type 0
DiskState = List (Text × DiskRecord)

-- `records.get(id)`
unfoldable pub lookup : Text → DiskState → Option DiskRecord
unfolding bytes_eq
lookup id [] = none
lookup id ((key, r) ∷ records) = if bytes_eq id key then some r else lookup id records

unfoldable pub bytes_lt : Text → Text → Bool
bytes_lt [] [] = false
bytes_lt [] (y ∷ ys) = true
bytes_lt (x ∷ xs) [] = false
bytes_lt (x ∷ xs) (y ∷ ys) =
    let rest = bytes_lt xs ys in if ltb x y then true else if x == y then rest else false

-- `records.insert(id, record)`
unfoldable pub insert : Text → DiskRecord → DiskState → DiskState
unfolding bytes_eq bytes_lt
insert id r [] = (id, r) ∷ []
insert id r ((key, x) ∷ records) =
    let later = (key, x) ∷ insert id r records in
    if bytes_eq id key
    then (id, r) ∷ records
    else if bytes_lt id key
    then (id, r) ∷ (key, x) ∷ records
    else later

-- `records.retain(…)`
unfoldable pub retain : (DiskRecord → Bool) → DiskState → DiskState
unfolding filter
retain p records = filter (λ entry. p entry.1) records

unfoldable pub kind_code : SafeRefKind → ℕ
kind_code secret = 1
kind_code environment = 2
kind_code personally_identifiable_information = 3
kind_code private_key = 4
kind_code certificate = 5

unfoldable pub decode_kind : ℕ → VaultResult SafeRefKind
decode_kind code =
    if code == 1
    then ok secret
    else if code == 2
    then ok environment
    else if code == 3
    then ok personally_identifiable_information
    else if code == 4
    then ok private_key
    else if code == 5
    then ok certificate
    else err corrupt_or_wrong_key

abbrev pub hex_digit : ℕ → ℕ
hex_digit d = if ltb d 10 then 48 + d else 87 + d

unfoldable pub encode_hex : Text → Text
encode_hex [] = []
encode_hex (b ∷ bytes) = hex_digit (b / 16) ∷ hex_digit (b % 16) ∷ encode_hex bytes

abbrev pub behind_colon : ℕ → Text → Option Text → Option Text
behind_colon b text none = if b == 58 then some text else none
behind_colon b text (some id) = some id

-- `rsplit_once(':')`, the part behind the colon
unfoldable pub after_last_colon : Text → Option Text
after_last_colon [] = none
after_last_colon (b ∷ text) = behind_colon b text (after_last_colon text)

abbrev pub or_reject : {A : Type 0} → Option A → VaultResult A
or_reject none = err reference_rejected
or_reject (some a) = ok a

abbrev pub after_colon : Option Text → Option Text
after_colon none = none
after_colon (some text) = after_last_colon text

unfoldable pub reference_id : SafeRef → VaultResult Text
unfolding strip_suffix after_last_colon
reference_id r = or_reject (after_colon (strip_suffix r.encoded reference_suffix))
