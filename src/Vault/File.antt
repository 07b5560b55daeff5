-- ===== src/Vault/File.antt =====
-- crates/blindfold-vault/src/vault.rs: the encrypted file. The cipher (`chacha20poly1305`) and the JSON
-- of the state (`serde_json`) are arguments. The file is replaced as a whole or not at all
-- (`atomic-write-file`); the operating system fails only where there is a symbolic link.
pub mod Laws
use blindfold.Prelude.{
  ℕ, ◌+◌, Bool, true, false, not, ◌||◌, Option, none, some, List, [], ◌∷◌, ◌++◌, ltb, if◌then◌else◌,
  length, take, drop, codes, bytes_eq,
}
use blindfold.Core.SafeRef.{Text}
use blindfold.Vault.State.{
  VaultError, storage_unavailable, randomness_unavailable, corrupt_or_wrong_key, VaultResult, ok,
  err, DiskState,
}

abbrev pub magic : Text
magic = codes "BFVAULT1"

abbrev pub format_version : ℕ
format_version = 1

abbrev pub nonce_len : ℕ
nonce_len = 24

abbrev pub header_len : ℕ
header_len = length magic + 1 + nonce_len

pub record Outside : Type 0 where
  -- key, nonce, associated data and message
  pub encrypt : Text → Text → Text → Text → Option Text
  pub decrypt : Text → Text → Text → Text → Option Text
  pub to_vec : DiskState → Option Text
  pub from_slice : Text → Option DiskState

pub data File : Type 0 where
  missing symlink : File
  present : Text → File

abbrev pub or_corrupt : {A : Type 0} → Option A → VaultResult A
or_corrupt none = err corrupt_or_wrong_key
or_corrupt (some a) = ok a

abbrev pub parse_plain : Outside → Option Text → VaultResult DiskState
parse_plain outside none = err corrupt_or_wrong_key
parse_plain outside (some plain) = or_corrupt (outside.from_slice plain)

abbrev pub open_bytes : Outside → Text → Text → VaultResult DiskState
open_bytes outside key bytes = parse_plain outside (
    outside.decrypt key (take nonce_len (drop (length magic + 1) bytes))
      (take (length magic + 1) bytes) (drop header_len bytes))

-- The three checks of the header.
abbrev pub has_header : Text → Bool
has_header bytes = not (
    ltb (length bytes) header_len
    || (not (bytes_eq (take (length magic) bytes) magic)
        || not (bytes_eq (take 1 (drop (length magic) bytes)) (format_version ∷ []))))

abbrev pub open_present : Outside → Text → Text → VaultResult DiskState
open_present outside key bytes =
    if has_header bytes then open_bytes outside key bytes else err corrupt_or_wrong_key

unfoldable pub read_state : Outside → Text → File → VaultResult DiskState
unfolding bytes_eq
read_state outside key missing = ok []
read_state outside key symlink = err storage_unavailable
read_state outside key (present bytes) = open_present outside key bytes

abbrev pub aad : Text
aad = magic ++ format_version ∷ []

abbrev pub header : Text → Text
header nonce = aad ++ nonce

abbrev pub write_cipher : File → Text → Option Text → File × VaultResult Unit
write_cipher file nonce none = (file, err corrupt_or_wrong_key)
write_cipher file nonce (some cipher) = (present (header nonce ++ cipher), ok tt)

abbrev pub write_plain : Outside → Text → Option Text → File → Option Text → File × VaultResult Unit
write_plain outside key drawn file none = (file, err corrupt_or_wrong_key)
write_plain outside key none file (some plain) = (file, err randomness_unavailable)
write_plain outside key (some nonce) file (some plain) =
    write_cipher file nonce (outside.encrypt key nonce aad plain)

-- The nonce is what `getrandom::fill` gives, if it does.
unfoldable pub write_state :
    Outside → Text → Option Text → File → DiskState → File × VaultResult Unit
write_state outside key drawn symlink state = (symlink, err storage_unavailable)
write_state outside key drawn missing state =
    write_plain outside key drawn missing (outside.to_vec state)
write_state outside key drawn (present bytes) state =
    write_plain outside key drawn (present bytes) (outside.to_vec state)
