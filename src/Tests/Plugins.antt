-- ===== src/Tests/Plugins.antt =====
-- A manifest that is accepted.
use blindfold.Prelude.{◌≡◌, ◌≤◌, refl, true, some, [], ◌∷◌, codes, length}
use blindfold.Core.SafeRef.{Text}
use blindfold.Plugin.Manifest.{
  harness_adapter, stdio_json_v1, exec, open_ai, http_json, model_request, model_response,
  workspace_read, workspace_write, model_proxy, greater_eq, less, PluginManifest, ok, parse_toml,
  validate, invalid_entrypoint, FromStr,
}
use blindfold.Plugin.Manifest.Safety.{IsSafe, parse_toml-IsSafe}

abbrev sample_manifest : Text → PluginManifest
sample_manifest entrypoint = record {
  manifest_version = 1;
  id = codes "acme.codex-adapter";
  version = codes "1.0.0";
  kind = harness_adapter;
  protocol = stdio_json_v1;
  entrypoint = entrypoint;
  harness = record {
    command = codes "codex";
    version_requirement = greater_eq ∷ less ∷ [];
    noninteractive_modes = exec ∷ [];
  };
  capabilities = record {
    providers = open_ai ∷ [];
    transports = http_json ∷ [];
    events = model_request ∷ model_response ∷ [];
  };
  permissions = record {
    filesystem = workspace_write ∷ workspace_read ∷ [];
    network = model_proxy ∷ [];
    environment = [];
    spawn_harness = true;
    spawn_tools = true;
  };
}

-- A reader of one document.
abbrev sample_from_str : FromStr
sample_from_str text = some (sample_manifest (codes "bin/adapter"))

outside_run : validate (sample_manifest (codes "bin/../../adapter")) ≡ some invalid_entrypoint
unfolding validate
outside_run = refl

sample_run :
    parse_toml sample_from_str (codes "id = 1") ≡ ok (sample_manifest (codes "bin/adapter"))
unfolding parse_toml
sample_run = refl

parse_toml-IsSafe_example :
    (length (codes "id = 1") ≤ 65536) × IsSafe (sample_manifest (codes "bin/adapter"))
parse_toml-IsSafe_example =
    parse_toml-IsSafe sample_from_str (codes "id = 1") (sample_manifest (codes "bin/adapter"))
      sample_run
