-- ===== src/Plugin/Manifest.antt =====
-- crates/blindfold-plugin-api/src/lib.rs: `parse_toml` and `validate`. The document is read by `toml`
-- and `serde`, which are a parameter; a version requirement of `semver` is the list of the operators
-- of its comparators.
pub mod Checks
pub mod Entrypoints
pub mod Declarations
pub mod Versions
pub mod Safety
use blindfold.Prelude.{
  ℕ, ◌*◌, Bool, true, false, not, ◌&&◌, ◌||◌, Option, none, some, List, [], ◌∷◌, map, leb, ltb,
  ◌==◌, if◌then◌else◌, length, codes, bytes_eq,
}
use blindfold.Core.SafeRef.{Text}
use blindfold.Proxy.Events.{from_utf8}

pub data PluginKind : Type 0 where
  harness_adapter : PluginKind

pub data Protocol : Type 0 where
  builtin_v1 stdio_json_v1 : Protocol

pub data NonInteractiveMode : Type 0 where
  print exec review run : NonInteractiveMode

pub data Provider : Type 0 where
  open_ai anthropic open_router : Provider

pub data Transport : Type 0 where
  http_json server_sent_events web_socket : Transport

pub data Event : Type 0 where
  model_request model_response tool_request tool_result command_output : Event

pub data FilesystemPermission : Type 0 where
  plugin_read workspace_read workspace_write session_temp : FilesystemPermission

pub data NetworkPermission : Type 0 where
  model_proxy policy_egress local_broker : NetworkPermission

pub data EnvironmentPermission : Type 0 where
  path home temp locale terminal user_identity shell host_config : EnvironmentPermission

-- The derived orders, by the order of declaration.
abbrev pub mode_rank : NonInteractiveMode → ℕ
mode_rank print = 0
mode_rank exec = 1
mode_rank review = 2
mode_rank run = 3

abbrev pub provider_rank : Provider → ℕ
provider_rank open_ai = 0
provider_rank anthropic = 1
provider_rank open_router = 2

abbrev pub transport_rank : Transport → ℕ
transport_rank http_json = 0
transport_rank server_sent_events = 1
transport_rank web_socket = 2

abbrev pub event_rank : Event → ℕ
event_rank model_request = 0
event_rank model_response = 1
event_rank tool_request = 2
event_rank tool_result = 3
event_rank command_output = 4

abbrev pub filesystem_rank : FilesystemPermission → ℕ
filesystem_rank plugin_read = 0
filesystem_rank workspace_read = 1
filesystem_rank workspace_write = 2
filesystem_rank session_temp = 3

abbrev pub network_rank : NetworkPermission → ℕ
network_rank model_proxy = 0
network_rank policy_egress = 1
network_rank local_broker = 2

abbrev pub environment_rank : EnvironmentPermission → ℕ
environment_rank path = 0
environment_rank home = 1
environment_rank temp = 2
environment_rank locale = 3
environment_rank terminal = 4
environment_rank user_identity = 5
environment_rank shell = 6
environment_rank host_config = 7

-- `semver::Op`
pub data Op : Type 0 where
  exact greater greater_eq less less_eq tilde caret wildcard : Op

pub record Harness : Type 0 where
  pub command : Text
  pub version_requirement : List Op
  pub noninteractive_modes : List NonInteractiveMode

pub record Capabilities : Type 0 where
  pub providers : List Provider
  pub transports : List Transport
  pub events : List Event

pub record Permissions : Type 0 where
  pub filesystem : List FilesystemPermission
  pub network : List NetworkPermission
  pub environment : List EnvironmentPermission
  pub spawn_harness : Bool
  pub spawn_tools : Bool

pub record PluginManifest : Type 0 where
  pub manifest_version : ℕ
  pub id : Text
  pub version : Text
  pub kind : PluginKind
  pub protocol : Protocol
  pub entrypoint : Text
  pub harness : Harness
  pub capabilities : Capabilities
  pub permissions : Permissions

pub data ManifestError : Type 0 where
  too_large invalid_encoding invalid_document unsupported_manifest_version : ManifestError
  invalid_plugin_id invalid_entrypoint invalid_harness_command : ManifestError
  unbounded_harness_version empty_declaration too_many_declarations : ManifestError
  duplicate_declaration missing_boundary_events insufficient_boundary_permissions : ManifestError
  invalid_permission_combination : ManifestError

-- `Result<(), ManifestError>`: `none` is `Ok(())`.
abbrev pub refuse : Bool → ManifestError → Option ManifestError
refuse bad e = if bad then some e else none

-- `?` in front of the checks that follow
abbrev pub first_error : Option ManifestError → Option ManifestError → Option ManifestError
first_error none next = next
first_error (some e) next = some e

abbrev pub is_empty {ℓ} : {A : Type ℓ} → List A → Bool
is_empty [] = true
is_empty (x ∷ xs) = false

module _ {ℓ} {A : Type ℓ} (p : A → Bool) where
  unfoldable pub all : List A → Bool
  all [] = true
  all (x ∷ xs) = p x && all xs

abbrev pub is_lower : ℕ → Bool
is_lower b = leb 97 b && leb b 122

abbrev pub is_digit : ℕ → Bool
is_digit b = leb 48 b && leb b 57

abbrev pub is_alphanumeric : ℕ → Bool
is_alphanumeric b = is_digit b || (is_lower b || (leb 65 b && leb b 90))

-- `split` at each byte that passes the test
module _ (separates : ℕ → Bool) where
  abbrev pub push_first : ℕ → List Text → List Text
  push_first c [] = (c ∷ []) ∷ []
  push_first c (piece ∷ pieces) = (c ∷ piece) ∷ pieces

  unfoldable pub split_by : Text → List Text
  split_by [] = [] ∷ []
  split_by (c ∷ text) =
      let rest = split_by text in if separates c then [] ∷ rest else push_first c rest

unfoldable pub is_component : Text → Bool
unfolding all
is_component [] = false
is_component (c ∷ text) = is_lower c && all (λ b. is_lower b || is_digit b) text

unfoldable pub validate_plugin_id : Text → Option ManifestError
unfolding all split_by is_component
validate_plugin_id value =
    refuse
      (is_empty value
        || (ltb 64 (length value)
            || (not (all (λ b. is_lower b || (is_digit b || (b == 46 || b == 45))) value)
                || not (all is_component (split_by (λ b. b == 46 || b == 45) value)))))
      invalid_plugin_id

abbrev pub starts_with_slash : Text → Bool
starts_with_slash [] = false
starts_with_slash (c ∷ text) = c == 47

unfoldable pub ends_with_slash : Text → Bool
ends_with_slash [] = false
ends_with_slash (c ∷ []) = c == 47
ends_with_slash (c ∷ d ∷ text) = ends_with_slash (d ∷ text)

unfoldable pub is_part : Text → Bool
unfolding bytes_eq
is_part part = not (is_empty part || (bytes_eq part (codes ".") || bytes_eq part (codes "..")))

abbrev pub is_path_byte : ℕ → Bool
is_path_byte b = is_alphanumeric b || (b == 47 || (b == 46 || (b == 95 || b == 45)))

unfoldable pub validate_entrypoint : Text → Option ManifestError
unfolding all split_by is_part ends_with_slash
validate_entrypoint value =
    refuse
      (is_empty value
        || (ltb 240 (length value)
            || (starts_with_slash value
                || (ends_with_slash value
                    || (not (all is_part (split_by (λ b. b == 47) value))
                        || not (all is_path_byte value))))))
      invalid_entrypoint

abbrev pub starts_alphanumeric : Text → Bool
starts_alphanumeric [] = false
starts_alphanumeric (c ∷ text) = is_alphanumeric c

abbrev pub is_command_byte : ℕ → Bool
is_command_byte b = is_alphanumeric b || (b == 46 || (b == 95 || (b == 43 || b == 45)))

unfoldable pub validate_command : Text → Option ManifestError
unfolding all
validate_command value =
    refuse
      (is_empty value
        || (ltb 64 (length value)
            || (not (starts_alphanumeric value) || not (all is_command_byte value))))
      invalid_harness_command

-- The loop, with `lower` and `upper`.
unfoldable pub bounds_from : Bool → Bool → List Op → Bool
bounds_from lower upper [] = lower && upper
bounds_from lower upper (exact ∷ ops) = bounds_from true true ops
bounds_from lower upper (tilde ∷ ops) = bounds_from true true ops
bounds_from lower upper (caret ∷ ops) = bounds_from true true ops
bounds_from lower upper (wildcard ∷ ops) = false
bounds_from lower upper (greater ∷ ops) = bounds_from true upper ops
bounds_from lower upper (greater_eq ∷ ops) = bounds_from true upper ops
bounds_from lower upper (less ∷ ops) = bounds_from lower true ops
bounds_from lower upper (less_eq ∷ ops) = bounds_from lower true ops

unfoldable pub has_finite_version_bounds : List Op → Bool
unfolding bounds_from
has_finite_version_bounds ops = bounds_from false false ops

-- `contains`, by the rank
unfoldable pub has : List ℕ → ℕ → Bool
has [] x = false
has (y ∷ ys) x = y == x || has ys x

-- What is left of the values in a `BTreeSet`.
unfoldable pub to_set : List ℕ → List ℕ
unfolding has
to_set [] = []
to_set (x ∷ xs) = let rest = to_set xs in if has rest x then rest else x ∷ rest

unfoldable pub validate_unique : List ℕ → Option ManifestError
unfolding to_set
validate_unique values =
    first_error (refuse (ltb 16 (length values)) too_many_declarations)
      (refuse (not (length (to_set values) == length values)) duplicate_declaration)

unfoldable pub validate_nonempty_unique : List ℕ → Option ManifestError
unfolding validate_unique
validate_nonempty_unique values =
    first_error (refuse (is_empty values) empty_declaration) (validate_unique values)

abbrev pub events_of : PluginManifest → List ℕ
events_of m = map event_rank m.capabilities.events

abbrev pub filesystem_of : PluginManifest → List ℕ
filesystem_of m = map filesystem_rank m.permissions.filesystem

abbrev pub network_of : PluginManifest → List ℕ
network_of m = map network_rank m.permissions.network

unfoldable pub check_declarations : PluginManifest → Option ManifestError
unfolding validate_nonempty_unique
check_declarations m =
    first_error (validate_nonempty_unique (map mode_rank m.harness.noninteractive_modes)) (
      first_error (validate_nonempty_unique (map provider_rank m.capabilities.providers)) (
        first_error (validate_nonempty_unique (map transport_rank m.capabilities.transports)) (
          first_error (validate_nonempty_unique (events_of m)) (
            first_error (validate_unique (filesystem_of m)) (
              first_error (validate_unique (network_of m))
                (validate_unique (map environment_rank m.permissions.environment)))))))

unfoldable pub check_boundary : PluginManifest → Option ManifestError
unfolding has
check_boundary m =
    first_error
      (refuse
        (not (has (events_of m) (event_rank model_request))
          || not (has (events_of m) (event_rank model_response)))
        missing_boundary_events)
      (first_error
        (refuse
          (not m.permissions.spawn_harness || not (has (network_of m) (network_rank model_proxy)))
          insufficient_boundary_permissions)
        (refuse
          (has (filesystem_of m) (filesystem_rank workspace_write)
            && not (has (filesystem_of m) (filesystem_rank workspace_read)))
          invalid_permission_combination))

unfoldable pub validate : PluginManifest → Option ManifestError
unfolding validate_plugin_id validate_entrypoint validate_command has_finite_version_bounds
    check_declarations check_boundary
validate m = first_error (refuse (not (m.manifest_version == 1)) unsupported_manifest_version) (
    first_error (validate_plugin_id m.id) (
      first_error (validate_entrypoint m.entrypoint) (
        first_error (validate_command m.harness.command) (
          first_error
            (refuse (not (has_finite_version_bounds m.harness.version_requirement))
              unbounded_harness_version)
            (first_error (check_declarations m) (check_boundary m))))))

pub data Parsed : Type 0 where
  ok : PluginManifest → Parsed
  err : ManifestError → Parsed

abbrev pub parsed : PluginManifest → Option ManifestError → Parsed
parsed m none = ok m
parsed m (some e) = err e

-- `toml::from_str` into a `RawManifest`, whose members are those of a manifest
abbrev pub FromStr : Type 0
FromStr = Text → Option PluginManifest

abbrev pub parse_document : Option PluginManifest → Parsed
parse_document none = err invalid_document
parse_document (some m) = parsed m (validate m)

abbrev pub parse_text : FromStr → Option Text → Parsed
parse_text from_str none = err invalid_encoding
parse_text from_str (some text) = parse_document (from_str text)

unfoldable pub parse_toml : FromStr → List ℕ → Parsed
unfolding validate from_utf8
parse_toml from_str input =
    if ltb (64 * 1024) (length input) then err too_large else parse_text from_str (from_utf8 input)
