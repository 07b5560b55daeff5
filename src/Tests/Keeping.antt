-- ===== src/Tests/Keeping.antt =====
-- A vault with one record, under a cipher that leaves a message as it is.
use blindfold.Prelude.{
  ◌^◌, none, zero, ◌-◌, ◌≡◌, ◌↔◌, refl, sym, subst, arith, Option, some, [], ◌∷◌, ◌++◌, codes,
  length, bytes_eq, All,
}
use blindfold.Core.SafeRef.{Text, environment, SafeRef, from_id}
use blindfold.Vault.State.{
  ok, err, Scope, DiskRecord, DiskState, insert, retain, kind_code, reference_rejected,
}
use blindfold.Vault.File.{Outside, File, missing, present, read_state, write_state, header}
use blindfold.Vault.File.Laws.{IsSealable, read_state-write_state}
use blindfold.Vault.Operations.{
  Duration, EntryMetadata, store, resolve, clear, purge_expired, list, live, metadata, pick_id,
}
use blindfold.Vault.Operations.Resolving.{Grants, resolve_iff}
use blindfold.Vault.Operations.Storing.{IsDraw, Stored, store-Stored}
use blindfold.Vault.Operations.Removing.{
  ClearedScope, clear-ClearedScope, Purged, purge_expired-Purged,
}
use blindfold.Vault.Operations.Retaining.{outside_of}
use blindfold.Vault.Operations.Listing.{IsListed, list-IsListed}

abbrev zeros : Text
zeros = 0 ∷ 0 ∷ 0 ∷ 0 ∷ 0 ∷ 0 ∷ 0 ∷ 0 ∷ []

abbrev sample_draw : Text
sample_draw = zeros ++ zeros

abbrev sample_nonce : Text
sample_nonce = zeros ++ (zeros ++ zeros)

abbrev zero_id : Text
zero_id = codes "00000000000000000000000000000000"

abbrev here : Scope
here = record { project = codes "shop"; session = codes "a" }

abbrev there : Scope
there = record { project = codes "shop"; session = codes "b" }

abbrev sample_entry : DiskRecord
sample_entry = record {
  kind = 2;
  project = codes "shop";
  session = codes "a";
  created_at = 50;
  expires_at = 60;
  value = codes "hunter2";
}

abbrev one_state : DiskState
one_state = (zero_id, sample_entry) ∷ []

abbrev decode_sample : Text → Option DiskState
decode_sample (zero ∷ []) = some []
decode_sample _ = some one_state

abbrev sample_outside : Outside
sample_outside = record {
  encrypt = λ key nonce aad msg. some msg;
  decrypt = λ key nonce aad msg. some msg;
  to_vec = λ state. some (length state ∷ []);
  from_slice = decode_sample;
}

abbrev sample_key : Text
sample_key = codes "key"

abbrev sample_ref : SafeRef
sample_ref = record {
  kind = environment;
  encoded = codes "{{BLINDFOLD:v1:ENV:00000000000000000000000000000000}}";
}

abbrev ten_seconds : Duration
ten_seconds = record { seconds = 10; nanoseconds = 0 }

abbrev full_file : File
full_file = present (header sample_nonce ++ (1 ∷ []))

full_run : read_state sample_outside sample_key full_file ≡ ok one_state
unfolding read_state
full_run = refl

resolve_run :
    resolve sample_outside sample_key (some 59) full_file sample_ref here ≡ ok (codes "hunter2")
unfolding resolve
resolve_run = refl

expired_run :
    resolve sample_outside sample_key (some 60) full_file sample_ref here ≡ err reference_rejected
unfolding resolve
expired_run = refl

there_run :
    resolve sample_outside sample_key (some 59) full_file sample_ref there ≡ err reference_rejected
unfolding resolve
there_run = refl

one-IsSealable : IsSealable sample_outside sample_key sample_nonce one_state
one-IsSealable = record {
  plain = 1 ∷ [];
  cipher = 1 ∷ [];
  encoded = refl;
  encrypted = refl;
  decrypted = refl;
  decoded = refl;
  size = refl;
}

read_state-write_state_example :
    ((write_state sample_outside sample_key (some sample_nonce) missing one_state).1 ≡ ok tt)
    × (read_state sample_outside sample_key
          (write_state sample_outside sample_key (some sample_nonce) missing one_state).0
        ≡ ok one_state)
read_state-write_state_example =
    read_state-write_state sample_outside sample_key sample_nonce one_state one-IsSealable missing
      (λ e. cc)

resolve_iff_example :
    (resolve sample_outside sample_key (some 59) full_file sample_ref here ≡ ok (codes "hunter2"))
    ↔ ((state : DiskState) × (read_state sample_outside sample_key full_file ≡ ok state)
        × Grants state sample_ref here 59 (codes "hunter2"))
resolve_iff_example =
    resolve_iff sample_outside sample_key 59 full_file sample_ref here (codes "hunter2")

IsDraw-bytes : IsDraw sample_draw
IsDraw-bytes = record {
  size = refl;
  bytes = (
    omega arith,
    (
      omega arith,
      (
        omega arith,
        (
          omega arith,
          (
            omega arith,
            (
              omega arith,
              (
                omega arith,
                (
                  omega arith,
                  (
                    omega arith,
                    (
                      omega arith,
                      (
                        omega arith,
                        (
                          omega arith,
                          (omega arith, (omega arith, (omega arith, (omega arith, tt)))),
                        ),
                      ),
                    ),
                  ),
                ),
              ),
            ),
          ),
        ),
      ),
    ),
  );
}

picked_run : pick_id (retain (live 50) []) (sample_draw ∷ []) ≡ ok zero_id
unfolding pick_id retain
picked_run = refl

store-Stored_example :
    Stored sample_outside sample_key missing environment here (codes "hunter2") 50 60 (
      store sample_outside sample_key
        (some sample_nonce)
        (sample_draw ∷ [])
        (some 50)
        missing
        environment
        here
        (codes "hunter2")
        ten_seconds)
unfolding insert retain kind_code read_state
store-Stored_example =
    store-Stored sample_outside sample_key sample_nonce (sample_draw ∷ []) (IsDraw-bytes, tt) 50
      missing (λ e. cc) environment here (codes "hunter2") ten_seconds refl (omega arith)
      (omega arith) [] tt refl zero_id picked_run one-IsSealable

empty-IsSealable : IsSealable sample_outside sample_key sample_nonce []
empty-IsSealable = record {
  plain = 0 ∷ [];
  cipher = 0 ∷ [];
  encoded = refl;
  encrypted = refl;
  decrypted = refl;
  decoded = refl;
  size = refl;
}

cleared_run : retain (outside_of here) one_state ≡ []
unfolding retain bytes_eq
cleared_run = refl

clear-ClearedScope_example :
    ClearedScope sample_outside sample_key full_file here
      (length one_state - length (retain (outside_of here) one_state))
      (clear sample_outside sample_key (some sample_nonce) full_file here)
clear-ClearedScope_example =
    clear-ClearedScope sample_outside sample_key sample_nonce full_file (λ e. cc) one_state (tt, tt)
      full_run here
      (subst (IsSealable sample_outside sample_key sample_nonce) (sym cleared_run) empty-IsSealable)

purged_run : retain (live 60) one_state ≡ []
unfolding retain
purged_run = refl

purge_expired-Purged_example :
    Purged sample_outside sample_key full_file one_state 60
      (purge_expired sample_outside sample_key (some sample_nonce) (some 60) full_file)
purge_expired-Purged_example =
    purge_expired-Purged sample_outside sample_key sample_nonce full_file (λ e. cc) one_state
      (tt, tt) full_run 60
      (subst (IsSealable sample_outside sample_key sample_nonce) (sym purged_run) empty-IsSealable)

abbrev sample_metadata : EntryMetadata
sample_metadata = record { safe_ref = sample_ref; scope = here; created_at = 50; expires_at = 60 }

list_run :
    list sample_outside sample_key (some 59) full_file here ≡ some (ok (sample_metadata ∷ []))
unfolding list from_id
list_run = refl

-- Seconds that an `i64` does not hold.
late_metadata : metadata zero_id (record sample_entry { expires_at = 2 ^ 63 }) ≡ none
unfolding metadata from_id
late_metadata = refl

list-IsListed_example :
    All (IsListed sample_outside sample_key 59 full_file here) (sample_metadata ∷ [])
list-IsListed_example =
    list-IsListed sample_outside sample_key 59 full_file here one_state (sample_metadata ∷ [])
      (tt, tt) full_run list_run
