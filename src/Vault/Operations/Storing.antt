-- ===== src/Vault/Operations/Storing.antt =====
-- What `store` adds, and what it leaves.
use blindfold.Prelude.{
  ℕ, ◌+◌, ◌≤◌, ◌<◌, ◌≡◌, ◌≢◌, refl, sym, subst, ap, ◌∙◌, inl, inr, arith, true, false, Option, none,
  some, List, [], ◌∷◌, ltb, if◌then◌else◌, Bool-cases, length, All,
}
use blindfold.Core.SafeRef.{Text, SafeRefKind, SafeRef, encode}
use blindfold.Core.SafeRef.Laws.{IsId, from_id_of_id}
use blindfold.Vault.State.{
  VaultResult, ok, err, Scope, DiskState, lookup, insert, retain, encode_hex,
}
use blindfold.Vault.State.Laws.{IsMap, lookup-insert, lookup-insert_other, lookup-retain, keep}
use blindfold.Vault.State.Identifiers.{IsBytes, encode_hex-IsId, reference_id-encode}
use blindfold.Vault.File.{Outside, File, symlink, read_state, write_state}
use blindfold.Vault.File.Laws.{IsSealable, read_state-write_state}
use blindfold.Vault.Operations.{
  u64_max, Duration, unix_seconds, expiry, is_refused, is_some, pick_id, live, new_record,
  add_record, finish_store, store, resolve,
}
use blindfold.Vault.Operations.Resolving.{
  Grants, resolve_in-Grants, resolve_in_of_Grants, resolve-read,
}

-- What `getrandom::fill` gives for an identifier.
pub record IsDraw (drawn : Text) : Type 0 where
  pub size : length drawn ≡ 16
  pub bytes : IsBytes drawn

record Picked (state : DiskState) (id : Text) : Type 0 where
  valid : IsId id
  unused : lookup id state ≡ none

is_some-false : {A : Type 0} (o : Option A) → is_some o ≡ false → o ≡ none
is_some-false none h = refl
is_some-false (some a) h = cc

pick_id-Picked :
    (state : DiskState) (draws : List Text) (id : Text)
    → All IsDraw draws
    → pick_id state draws ≡ ok id
    → Picked state id
unfolding pick_id
pick_id-Picked state [] id h e = cc
pick_id-Picked state (drawn ∷ draws) id h e =
    elim (Bool-cases (is_some (lookup (encode_hex drawn) state))) [
      | inl t ↦ pick_id-Picked state draws id h.1 (rw t at e)
      | inr f ↦
          let here : ok (encode_hex drawn) ≡ ok id = rw f at e in
          let same : encode_hex drawn ≡ id = cc here in
          subst (Picked state) same (record {
            valid = encode_hex-IsId drawn h.0.size h.0.bytes;
            unused = is_some-false (lookup (encode_hex drawn) state) f;
          })
    ]

-- What `store` has done: the new reference resolves in its scope until the record expires, and what
-- resolved before still does.
pub record Stored (outside : Outside) (key : Text) (before : File) (kind : SafeRefKind)
    (scope : Scope) (value : Text) (now expires : ℕ) (out : File × VaultResult SafeRef)
    : Type 0 where
  pub reference : SafeRef
  pub returned : out.1 ≡ ok reference
  pub is_kind : reference.kind ≡ kind
  pub resolves :
      (later : ℕ)
      → later < expires
      → resolve outside key (some later) out.0 reference scope ≡ ok value
  pub others :
      (other : SafeRef) (other_scope : Scope) (other_value : Text)
      → resolve outside key (some now) before other other_scope ≡ ok other_value
      → resolve outside key (some now) out.0 other other_scope ≡ ok other_value

module _ (outside : Outside) (key nonce : Text) (draws : List Text) (drawn : All IsDraw draws)
    (now : ℕ) (file : File) (no_link : file ≢ symlink) (kind : SafeRefKind) (scope : Scope)
    (value : Text) (ttl : Duration) (wanted : is_refused value ttl ≡ false)
    (lasting : 0 < ttl.seconds) (small : now + ttl.seconds ≤ u64_max) (state : DiskState)
    (is_map : IsMap state) (readable : read_state outside key file ≡ ok state) (id : Text)
    (picked : pick_id (retain (live now) state) draws ≡ ok id) where
  abbrev pub next_state : DiskState
  next_state =
      insert id (new_record kind scope value now (now + ttl.seconds)) (retain (live now) state)

  expiry-ok : expiry ttl now ≡ ok (now + ttl.seconds)
  unfolding expiry
  expiry-ok = ground (arith, lasting, small)

  abbrev reference : SafeRef
  reference = record { kind = kind; encoded = encode kind id }

  id-Picked : Picked (retain (live now) state) id
  id-Picked = pick_id-Picked (retain (live now) state) draws id drawn picked

  add_record-ok :
      add_record state kind scope value now (now + ttl.seconds) draws ≡ ok (reference, next_state)
  unfolding add_record
  add_record-ok = rw (picked, from_id_of_id kind id id-Picked.valid)

  store-saves :
      store outside key (some nonce) draws (some now) file kind scope value ttl
      ≡ finish_store reference (write_state outside key (some nonce) file next_state)
  unfolding store unix_seconds
  store-saves = rw (wanted, expiry-ok, readable, add_record-ok)

  granted_new :
      (later : ℕ) → later < now + ttl.seconds → Grants next_state reference scope later value
  granted_new later h = record {
    id = id;
    found = new_record kind scope value now (now + ttl.seconds);
    named = reference_id-encode kind id id-Picked.valid;
    listed =
        lookup-insert id (new_record kind scope value now (now + ttl.seconds))
          (retain (live now) state);
    fresh = h;
    project = refl;
    session = refl;
    kind = refl;
    is_value = refl;
  }

  granted_other :
      (other : SafeRef) (other_scope : Scope) (other_value : Text)
      → Grants state other other_scope now other_value
      → Grants next_state other other_scope now other_value
  granted_other other other_scope other_value g =
      let alive : ltb now g.found.expires_at ≡ true = ground (arith, g.fresh) in
      let kept : lookup g.id (retain (live now) state) ≡ some g.found =
        lookup-retain (live now) g.id state is_map
        ∙ ap (keep (live now)) g.listed
        ∙ ap (λ b. if b then some g.found else none) alive in
      let apart : g.id ≢ id =
        λ e. cc (ap (λ i. lookup i (retain (live now) state)) e, kept, id-Picked.unused) in
      record {
        id = g.id;
        found = g.found;
        named = g.named;
        listed =
            lookup-insert_other g.id id (new_record kind scope value now (now + ttl.seconds))
              (retain (live now) state) apart
            ∙ kept;
        fresh = g.fresh;
        project = g.project;
        session = g.session;
        kind = g.kind;
        is_value = g.is_value;
      }

  finished :
      (r : SafeRef) (out : File × VaultResult Unit)
      → out.1 ≡ ok tt
      → ((finish_store r out).0 ≡ out.0) × ((finish_store r out).1 ≡ ok r)
  finished r (f, ok u) h = (refl, refl)
  finished r (f, err e) h = cc

  -- Let the value not be empty, let the time to live be at least a second and not overflow, let the
  -- file be readable and no symbolic link, let the entries of its state stand in the order of their
  -- keys, let an unused identifier be drawn, and let the new state be encrypted and decrypted
  -- faithfully. Then `store` returns a reference of the given kind, which resolves to the value in the
  -- given scope at every time before it expires, and every reference that resolved at the time of the
  -- call still resolves to the same value in its scope.
  pub store-Stored :
      IsSealable outside key nonce next_state
      → Stored outside key file kind scope value now
          (now + ttl.seconds)
          (store outside key (some nonce) draws (some now) file kind scope value ttl)
  store-Stored sealable =
      let (written, back) =
        read_state-write_state outside key nonce next_state sealable file no_link in
      let (same_file, same_result) =
        finished reference (write_state outside key (some nonce) file next_state) written in
      let file_at = ap (λ x. x.0) store-saves ∙ same_file in
      let read_back = ap (read_state outside key) file_at ∙ back in
      record {
        reference = reference;
        returned = ap (λ x. x.1) store-saves ∙ same_result;
        is_kind = refl;
        resolves = λ later h.
            resolve-read outside key (some later) _ next_state reference scope read_back
            ∙ resolve_in_of_Grants next_state reference scope later value (granted_new later h);
        others = λ other other_scope other_value h.
            let g = resolve_in-Grants state other other_scope now other_value (
              sym (resolve-read outside key (some now) file state other other_scope readable)
              ∙ h) in
            resolve-read outside key (some now) _ next_state other other_scope read_back
            ∙ resolve_in_of_Grants next_state other other_scope now other_value
                (granted_other other other_scope other_value g);
      }
