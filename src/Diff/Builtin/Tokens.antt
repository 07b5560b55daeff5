-- ===== src/Diff/Builtin/Tokens.antt =====
-- crates/blindfold-diff/src/scan.rs: tokens of providers and URLs with credentials. A column is that
-- of a byte, from 1 on.
use blindfold.Prelude.{
  ℕ, ◌+◌, Bool, true, false, ◌&&◌, ◌||◌, Option, none, some, List, [], ◌∷◌, ◌++◌, map, leb, ◌==◌,
  if◌then◌else◌, codes, bytes_eq,
}
use blindfold.Prelude.Splitting.{split_on}
use blindfold.Core.SafeRef.{Text}
use blindfold.Diff.Text.{starts_with, split_once}
use blindfold.Diff.Scan.Paths.{contains, to_lower}
use blindfold.Diff.Builtin.Encoding.{byte_length, find, is_ascii_whitespace}

abbrev pub to_ascii_lowercase : Text → Text
to_ascii_lowercase text = map to_lower text

unfoldable pub find_ascii_case_insensitive : Text → Text → Option ℕ
unfolding to_lower find
find_ascii_case_insensitive haystack needle =
    find (to_ascii_lowercase haystack) (to_ascii_lowercase needle)

-- The part of the credentials is in front of the first `@`.
abbrev pub url_column : Text → Option (Text × Text) → Option ℕ
url_column before none = none
url_column before (some (credentials, host)) =
    if contains credentials (codes ":") then some (byte_length before + 4) else none

abbrev pub url_authority : Option (Text × Text) → Option ℕ
url_authority none = none
url_authority (some (before, authority)) = url_column before (split_once authority (codes "@"))

unfoldable pub credential_url_column : Text → Option ℕ
unfolding contains split_once byte_length
credential_url_column content = url_authority (split_once content (codes "://"))

-- The characters between which a token stands.
abbrev pub is_separator : ℕ → Bool
is_separator c = is_ascii_whitespace c || (c == 34 || (c == 39 || (c == 44 || c == 59)))

abbrev pub all_long : List Text → Bool
all_long [] = true
all_long (segment ∷ segments) = leb 8 (byte_length segment) && all_long segments

abbrev are_segments : List Text → Bool
are_segments (header ∷ payload ∷ signature ∷ []) =
    starts_with header (codes "eyJ") && all_long (header ∷ payload ∷ signature ∷ [])
are_segments _ = false

unfoldable pub is_jwt : Text → Bool
unfolding split_on byte_length starts_with
is_jwt candidate = are_segments (split_on 46 candidate)

-- The loop, with the offset of the token that is read and what is read of it.
unfoldable pub jwt_from : ℕ → Text → Text → Option ℕ
unfolding is_jwt byte_length
jwt_from start token [] = if is_jwt token then some (start + 1) else none
jwt_from start token (c ∷ text) =
    let next = jwt_from (start + byte_length token + 1) [] text in
    let same = jwt_from start (token ++ (c ∷ [])) text in
    if is_separator c then (if is_jwt token then some (start + 1) else next) else same

unfoldable pub jwt_column : Text → Option ℕ
unfolding jwt_from
jwt_column content = jwt_from 0 [] content

abbrev pub is_alphanumeric : ℕ → Bool
is_alphanumeric c = (leb 48 c && leb c 57) || ((leb 65 c && leb c 90) || (leb 97 c && leb c 122))

abbrev pub is_token : Text → Bool
is_token [] = true
is_token (c ∷ text) = (is_alphanumeric c || (c == 45 || c == 95)) && is_token text

-- `split(…).next()`
unfoldable pub first_token : Text → Text
first_token [] = []
first_token (c ∷ text) = let rest = first_token text in if is_separator c then [] else c ∷ rest

abbrev pub minimum : Text → ℕ
minimum prefix =
    if bytes_eq prefix (codes "AKIA")
      || (bytes_eq prefix (codes "ASIA") || bytes_eq prefix (codes "sk-"))
    then 20
    else 16

abbrev pub token_at : Text → Option (Text × Text) → Option ℕ
token_at prefix none = none
token_at prefix (some (before, behind)) =
    let token = first_token (prefix ++ behind) in
    if leb (minimum prefix) (byte_length token) && is_token token
    then some (byte_length before + 1)
    else none

abbrev pub or_next : Option ℕ → Option ℕ → Option ℕ
or_next none next = next
or_next (some column) next = some column

-- The loop over the prefixes.
unfoldable pub token_of : Text → List Text → Option ℕ
unfolding first_token byte_length split_once bytes_eq jwt_column
token_of content [] = jwt_column content
token_of content (prefix ∷ prefixes) =
    or_next (token_at prefix (split_once content prefix)) (token_of content prefixes)

unfoldable pub provider_token_column : Text → Option ℕ
unfolding token_of
provider_token_column content =
    token_of content
      (map codes ("AKIA" ∷ "ASIA" ∷ "ghp_" ∷ "github_pat_" ∷ "xoxb-" ∷ "xoxp-" ∷ "sk-" ∷ []))
