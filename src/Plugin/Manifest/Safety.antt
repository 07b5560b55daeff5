-- ===== src/Plugin/Manifest/Safety.antt =====
-- crates/blindfold-plugin-api/src/lib.rs: the manifests that are accepted.
use blindfold.Prelude.{
  ==_iff, ℕ, ◌*◌, ◌≤◌, ◌≡◌, inl, inr, refl, sym, ap, ◌∙◌, arith, Bool, true, false, not, ◌&&◌,
  Option, none, some, List, map, ltb, Bool-cases, length, Memᴰ,
}
use blindfold.Core.SafeRef.{Text}
use blindfold.Proxy.Events.{from_utf8}
use blindfold.Plugin.Manifest.{
  model_request, model_response, model_proxy, workspace_read, workspace_write, event_rank,
  network_rank, filesystem_rank, mode_rank, provider_rank, transport_rank, environment_rank,
  PluginManifest, ManifestError, unbounded_harness_version, unsupported_manifest_version,
  missing_boundary_events, insufficient_boundary_permissions, invalid_permission_combination,
  validate_plugin_id, validate_command, validate_unique, validate_nonempty_unique,
  check_declarations, check_boundary, validate, Parsed, ok, err, parsed, parse_document, parse_text,
  FromStr, parse_toml,
}
use blindfold.Plugin.Manifest.Checks.{refuse-none, first_error-none, not-false, ||_false}
use blindfold.Plugin.Manifest.Entrypoints.{IsEntrypoint, validate_entrypoint-IsEntrypoint}
use blindfold.Plugin.Manifest.Versions.{IsBounded, has_finite_version_bounds-IsBounded}
use blindfold.Plugin.Manifest.Declarations.{
  IsUnique, has-Mem, Mem-has, only_request, only_response, only_proxy, only_read,
  validate_unique-IsUnique, validate_nonempty_unique-IsUnique,
}

-- The conditions that keep a harness inside of the boundary.
pub record IsSafe (m : PluginManifest) : Type 0 where
  pub version : m.manifest_version ≡ 1
  pub entrypoint : IsEntrypoint m.entrypoint
  pub bounded : IsBounded m.harness.version_requirement
  pub request : Memᴰ model_request m.capabilities.events
  pub response : Memᴰ model_response m.capabilities.events
  pub spawns : m.permissions.spawn_harness ≡ true
  pub proxy : Memᴰ model_proxy m.permissions.network
  pub reads :
      Memᴰ workspace_write m.permissions.filesystem → Memᴰ workspace_read m.permissions.filesystem
  pub events : IsUnique (map event_rank m.capabilities.events)
  pub filesystem : IsUnique (map filesystem_rank m.permissions.filesystem)
  pub network : IsUnique (map network_rank m.permissions.network)

-- What the three groups of checks leave.
record AreDeclared (m : PluginManifest) : Type 0 where
  events : IsUnique (map event_rank m.capabilities.events)
  filesystem : IsUnique (map filesystem_rank m.permissions.filesystem)
  network : IsUnique (map network_rank m.permissions.network)

check_declarations-AreDeclared : (m : PluginManifest) → check_declarations m ≡ none → AreDeclared m
unfolding check_declarations
check_declarations-AreDeclared m h =
    let (_, providers) =
      first_error-none (validate_nonempty_unique (map mode_rank m.harness.noninteractive_modes)) _
        h in
    let (_, transports) =
      first_error-none (validate_nonempty_unique (map provider_rank m.capabilities.providers)) _
        providers in
    let (_, events) =
      first_error-none (validate_nonempty_unique (map transport_rank m.capabilities.transports)) _
        transports in
    let (event, permissions) = first_error-none _ _ events in
    let (file, connections) = first_error-none _ _ permissions in
    let (connection, _) =
      first_error-none _ (validate_unique (map environment_rank m.permissions.environment))
        connections in
    record {
      events = validate_nonempty_unique-IsUnique (map event_rank m.capabilities.events) event;
      filesystem = validate_unique-IsUnique (map filesystem_rank m.permissions.filesystem) file;
      network = validate_unique-IsUnique (map network_rank m.permissions.network) connection;
    }

record IsBoundary (m : PluginManifest) : Type 0 where
  request : Memᴰ model_request m.capabilities.events
  response : Memᴰ model_response m.capabilities.events
  spawns : m.permissions.spawn_harness ≡ true
  proxy : Memᴰ model_proxy m.permissions.network
  reads :
      Memᴰ workspace_write m.permissions.filesystem → Memᴰ workspace_read m.permissions.filesystem

check_boundary-IsBoundary : (m : PluginManifest) → check_boundary m ≡ none → IsBoundary m
unfolding check_boundary
check_boundary-IsBoundary m h =
    let (events, rest) = first_error-none _ _ h in
    let (permissions, combination) = first_error-none _ _ rest in
    let (request, response) = ||_false _ _ (refuse-none _ missing_boundary_events events) in
    let (spawns, proxy) =
      ||_false _ _ (refuse-none _ insufficient_boundary_permissions permissions) in
    let pair = refuse-none _ invalid_permission_combination combination in
    record {
      request =
          has-Mem event_rank model_request only_request m.capabilities.events (not-false _ request);
      response =
          has-Mem event_rank model_response only_response m.capabilities.events
            (not-false _ response);
      spawns = not-false m.permissions.spawn_harness spawns;
      proxy = has-Mem network_rank model_proxy only_proxy m.permissions.network (not-false _ proxy);
      reads = λ w.
          has-Mem filesystem_rank workspace_read only_read m.permissions.filesystem
            (implied _ _ pair (Mem-has filesystem_rank workspace_write m.permissions.filesystem w));
    }
  where
    implied : (a b : Bool) → (a && not b) ≡ false → a ≡ true → b ≡ true
    implied true b h e = not-false b h
    implied false b h e = cc

validate-IsSafe : (m : PluginManifest) → validate m ≡ none → IsSafe m
unfolding validate
validate-IsSafe m h =
    let (version, a) = first_error-none _ _ h in
    let (_, b) = first_error-none (validate_plugin_id m.id) _ a in
    let (entrypoint, c) = first_error-none _ _ b in
    let (_, d) = first_error-none (validate_command m.harness.command) _ c in
    let (bounds, e) = first_error-none _ _ d in
    let (declarations, boundary) = first_error-none _ _ e in
    let declared = check_declarations-AreDeclared m declarations in
    let inside = check_boundary-IsBoundary m boundary in
    record {
      version =
          (==_iff m.manifest_version 1).0
            (not-false _ (refuse-none _ unsupported_manifest_version version));
      entrypoint = validate_entrypoint-IsEntrypoint m.entrypoint entrypoint;
      bounded =
          has_finite_version_bounds-IsBounded m.harness.version_requirement
            (not-false _ (refuse-none _ unbounded_harness_version bounds));
      request = inside.request;
      response = inside.response;
      spawns = inside.spawns;
      proxy = inside.proxy;
      reads = inside.reads;
      events = declared.events;
      filesystem = declared.filesystem;
      network = declared.network;
    }

parsed-ok :
    (n m : PluginManifest) (e : Option ManifestError) → parsed n e ≡ ok m → (n ≡ m) × (e ≡ none)
parsed-ok n m none h = ((λ i. manifest_of n (h i)), refl)
  where
    manifest_of : PluginManifest → Parsed → PluginManifest
    manifest_of other (ok k) = k
    manifest_of other (err e) = other
parsed-ok n m (some e) h = cc

not_larger : (n : ℕ) → ltb 65536 n ≡ false → n ≤ 65536
not_larger n h = ground (arith, h)

-- A manifest that `parse_toml` returns was read from at most 64 KiB. Its entry point is a path of at
-- most 240 bytes that does not leave the directory it is looked up in; its version requirement has a
-- bound below, a bound above and no wildcard; it declares both events of the model boundary and the
-- permissions to start the harness and to reach the model proxy; if it may write the workspace it may
-- read it; and no event, file permission or network permission is declared twice.
pub parse_toml-IsSafe :
    (from_str : FromStr) (input : List ℕ) (m : PluginManifest)
    → parse_toml from_str input ≡ ok m
    → (length input ≤ 65536) × IsSafe m
unfolding parse_toml
parse_toml-IsSafe from_str input m h = elim (Bool-cases (ltb (64 * 1024) (length input))) [
  | inl t ↦ cc (rw t at h)
  | inr f ↦ (not_larger (length input) f, of_text (from_utf8 input) (rw f at h))
]
  where
    of_document : (o : Option PluginManifest) → parse_document o ≡ ok m → IsSafe m
    of_document none k = cc
    of_document (some n) k =
        let (same, valid) = parsed-ok n m (validate n) k in
        validate-IsSafe m (ap validate (sym same) ∙ valid)

    of_text : (o : Option Text) → parse_text from_str o ≡ ok m → IsSafe m
    of_text none k = cc
    of_text (some text) k = of_document (from_str text) k
