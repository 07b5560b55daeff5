-- ===== src/Lib.antt =====
-- Blindfold keeps secrets away from AI agents. This development models the parts of it that decide
-- and transform: which values may cross a boundary, where secrets stand in a text, and what is
-- written in their place.
--
-- The parts and how they interact:
--
-- * Core (crates/blindfold-core): `Types` has the enums that the crates share. `SafeRef` has the
--   opaque references that stand for values in a vault; `from_id` and `parse` are in `Core.SafeRef`.
-- * Policy (crates/blindfold-policy/src/lib.rs): `Policy.Types` has requests, rules and decisions;
--   `Policy.Rules` has `RuleScope::matches`, `violates_invariant` and `validate_rules`;
--   `Policy.Presets` has `preset_action` and its tables; `Policy.Engine` has `Policy::new` and
--   `Policy::evaluate_at`, whose early returns are the functions `by_validity`, `by_deny`, `by_allow`
--   and `by_preset`. A request names a kind, a sensitivity and a destination of Core.
-- * Detectors (crates/blindfold-detectors): `Finding` has spans and findings (src/finding.rs),
--   `Overlap` has `resolve_overlaps` (src/overlap.rs), `DetectorSet` has `DetectorSet::detect`
--   (src/detector.rs), and `Redaction` has `Redactor::redact` (src/redaction.rs), which replaces what
--   the set finds.
-- * Exec (crates/blindfold-exec): `Redactor` has `StreamingRedactor` (src/redactor.rs), and `Capture`
--   has `capture_stream` (src/lib.rs), which feeds it with what is read from a child process.
-- * Trace (crates/blindfold-trace/src/lib.rs): `Record` has the closed schema and `validate`, `Store`
--   has `open`, `append`, `rotate` and `clear`, and `Reader` has `read_path` and `read_all`.
-- * Vault (crates/blindfold-vault/src/vault.rs): `State` has the records and the map of them, `File` has
--   `read_state` and `write_state`, and `Operations` has `store`, `resolve`, `list`, `clear` and
--   `purge_expired`. A record's identifier is in a reference of `Core.SafeRef`.
-- * Diff (crates/blindfold-diff): `Patch` has the data and builders of src/patch.rs, `Parser` has
--   `parse_patch` on the functions of `Text`. Of src/scan.rs, `Scan` has `scan_with` and
--   `classify_path`, which go through a patch of the parser, `Builtin` has the built-in detector, which
--   `scan_patch` and `scan` hand to `scan_with`, and `Report` has `to_text` and `to_json`. `Printer`,
--   which the source does not have, writes patches as text, for the round trip.
-- * Proxy (crates/blindfold-proxy/src/sanitize.rs): `Sanitize` has the walk over JSON values, `Events`
--   has `sanitize_sse`, which calls it for the data of each event.
-- * Plugin (crates/blindfold-plugin-api/src/lib.rs): `Manifest` has `parse_toml` and `validate`.
--
-- How the code is modelled:
--
-- * Text and bytes are lists of numbers, a text by its UTF-8 bytes, in Diff by its code points.
--   `usize` is not bounded, since it measures memory; but the line numbers of patches, which are read,
--   are below `2 ^ 64`, and their sums wrap there, as in a release build. Counters of type `u64`
--   saturate at `2 ^ 64 - 1` as in the source.
-- * An enum's derived equality and order are those of its rank, the position of its declaration. A
--   `RuleId` and an instant of `SystemTime` are numbers.
-- * `Result<(), E>` is `Option E`, with `none` for `Ok(())`; other results are data types.
-- * `sort_unstable_by_key` is any function that rearranges into ascending order
--   (`Prelude.Sorting.UnstableSort`): the theorems hold for each of them, and insertion sort shows
--   that there is one.
-- * The loop of `StreamingRedactor::process` is on fuel, as many rounds as there are bytes to
--   process. A round moves the cursor if no pattern is empty, and the theorems on captures say that
--   the result is there. With an empty pattern the loop of the source would not end;
--   `SecretBinding::new` refuses empty values.
-- * `Detectors.Redaction.Outside` stands for `blake3::keyed_hash` and `getrandom::fill`, and has the
--   dotenv catalog of a call, whose parser is left out; detectors are functions on a text and the
--   findings so far.
-- * The files of the trace store are a function from the generation, 0 for the active file, to what is
--   there: nothing, a symbolic link, or bytes. An operation takes the files to the files that it
--   leaves, in its failures too, and a result. Other failures of the operating system, the parent
--   directory, permissions and the lock file are left out; `serde_json` is the parameter `Json`.
-- * The vault's file is missing, a symbolic link, or bytes; it is replaced as a whole or not at
--   all. The cipher (`chacha20poly1305`) and `serde_json` are the parameter `Vault.File.Outside`.
--   The theorems that read what was written take as a hypothesis that they invert what they made of
--   the state in question. `list` is `none` where it panics, at a time that `SystemTime` does not
--   hold on Unix. Identifiers are drawn from a list of what `getrandom::fill` gives, which fails
--   behind its end; with it the loop of `store` ends.
-- * `toml::from_str` is a parameter that gives a manifest; a requirement of `semver` is the list of its
--   comparators' operators.
-- * A detector of `scan_with` is any function from an added line to detections. Offsets in a line are
--   those of its UTF-8 bytes. The loop of `mask_safe_refs` is on fuel, the length of the line,
--   of which each round takes at least two characters.
-- * A sanitizer of the proxy is a record of its two functions; `serde_json` is the parameter `Json`, a
--   number is the text that it is printed as, and an object is a list of fields.
--
-- Not modelled: the built-in detectors (regular expressions and validators of other crates), the
-- scanner, the audit log of the vault, what calls git, the HTTP server of the proxy, the host of the
-- plugins, the MCP server and the command line; the parts of a crate that only format, log or wipe
-- memory.
pub mod Prelude
pub mod Core
pub mod Plugin
pub mod Policy
pub mod Detectors
pub mod Exec
pub mod Tests
pub mod Diff
pub mod Proxy
pub mod Trace
pub mod Vault
