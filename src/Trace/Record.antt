-- ===== src/Trace/Record.antt =====
-- crates/blindfold-trace/src/lib.rs: the closed schema of a trace record, and when a record is valid.
-- Text is a list of UTF-8 bytes.
pub mod Schema
use blindfold.Prelude.{
  ℕ, ◌≤◌, ◌<◌, ◌≡◌, ◌≢◌, refl, Bool, true, false, not, ◌&&◌, ◌||◌, Option, none, some, List, [],
  ◌∷◌, ltb, leb, ◌==◌, if◌then◌else◌, length, codes,
}

abbrev pub Bytes : Type 0
Bytes = List ℕ

pub data Error : Type 0 where
  invalid_input storage_unavailable : Error

pub data Route : Type 0 where
  open_ai anthropic unknown redact mask scan : Route
  exec call policy diff_check vault audit : Route
  proxy egress mcp run_claude run_codex run_opencode : Route
  init doctor : Route

pub data Coverage : Type 0 where
  protected degraded unprotected : Coverage

pub data Outcome : Type 0 where
  observed succeeded rejected failed timed_out : Outcome

pub data Issue : Type 0 where
  unsupported_request unsupported_response request_too_large response_too_large invalid_payload
        proxy_loop :
      Issue
  route_not_allowed upstream_failure timeout direct_filesystem_unmediated : Issue

pub data Category : Type 0 where
  open_ai_api_key anthropic_api_key git_hub_token stripe_key slack_token aws_access_key_id :
      Category
  aws_secret_access_key bearer_token jwt o_auth_token pem_private_key credential_url : Category
  email_address phone_number password api_key token sensitive : Category

abbrev pub is_protected : Coverage → Bool
is_protected protected = true
is_protected _ = false

abbrev is_digit : ℕ → Bool
is_digit b = leb 48 b && leb b 57

abbrev is_lower : ℕ → Bool
is_lower b = leb 97 b && leb b 122

abbrev is_upper : ℕ → Bool
is_upper b = leb 65 b && leb b 90

-- `is_ascii_hexdigit() || b'_'`
unfoldable pub is_request_byte : ℕ → Bool
is_request_byte b = (is_digit b || ((leb 65 b && leb b 70) || (leb 97 b && leb b 102))) || b == 95

-- `is_ascii_alphanumeric() || matches!(byte, b'/' | b'_' | b'-' | b'~' | b'*')`
unfoldable pub is_pointer_byte : ℕ → Bool
is_pointer_byte b =
    (is_digit b || (is_lower b || is_upper b))
    || (b == 47 || (b == 95 || (b == 45 || (b == 126 || b == 42))))

unfoldable pub is_digit_byte : ℕ → Bool
is_digit_byte b = is_digit b

-- `bytes().all(…)`
unfoldable pub all_bytes : (ℕ → Bool) → Bytes → Bool
all_bytes p [] = true
all_bytes p (b ∷ text) = p b && all_bytes p text

abbrev pub is_filled : Bytes → Bool
is_filled [] = false
is_filled (b ∷ text) = true

-- `strip_prefix(…).is_some_and(|suffix| !suffix.is_empty() && suffix.bytes().all(…))`
unfoldable pub has_tail : (ℕ → Bool) → Bytes → Bytes → Bool
unfolding all_bytes
has_tail p [] text = is_filled text && all_bytes p text
has_tail p (c ∷ prefix) [] = false
has_tail p (c ∷ prefix) (b ∷ text) = b == c && has_tail p prefix text

abbrev pub is_rooted : Bytes → Bool
is_rooted [] = false
is_rooted (b ∷ text) = b == 47

pub record Replacement : Type 0 where
  pub id : Bytes
  pub category : Category
  pub pointer : Bytes
  pub occurrences : ℕ

-- `Replacement::validate`; `none` is `Ok(())`.
unfoldable pub validate_replacement : Replacement → Option Error
unfolding has_tail all_bytes is_digit_byte is_pointer_byte
validate_replacement r =
    let valid_id = has_tail is_digit_byte (codes "S") r.id in
    let valid_pointer =
      leb (length r.pointer) 256 && (is_rooted r.pointer && all_bytes is_pointer_byte r.pointer) in
    if valid_id && (valid_pointer && ltb 0 r.occurrences) then none else some invalid_input

-- `Result<Replacement>` of `Replacement::new`
unfoldable pub new_replacement : Bytes → Category → Bytes → ℕ → Option Replacement
unfolding validate_replacement
new_replacement id category pointer occurrences =
    let r : Replacement = record {
      id = id;
      category = category;
      pointer = pointer;
      occurrences = occurrences;
    } in
    elim (validate_replacement r) [ none ↦ some r | some e ↦ none ]

pub record Record : Type 0 where
  pub version : ℕ
  pub timestamp : ℕ
  pub request_id : Bytes
  pub route : Route
  pub coverage : Coverage
  pub outcome : Outcome
  pub request_bytes_before : ℕ
  pub request_bytes_after : ℕ
  pub response_bytes_before : ℕ
  pub response_bytes_after : ℕ
  pub replacements : List Replacement
  pub issue : Option Issue

abbrev pub is_some {ℓ} : {A : Type ℓ} → Option A → Bool
is_some none = false
is_some (some a) = true

-- `iter().try_for_each(Replacement::validate)`
unfoldable pub validate_all : List Replacement → Option Error
unfolding validate_replacement
validate_all [] = none
validate_all (r ∷ rs) = elim (validate_replacement r) [ some e ↦ some e | none ↦ validate_all rs ]

-- `Record::validate`
unfoldable pub validate : Record → Option Error
unfolding has_tail is_request_byte validate_all
validate r =
    let valid_id =
      leb (length r.request_id) 80 && has_tail is_request_byte (codes "req_") r.request_id in
    let valid_state =
      (is_protected r.coverage && not (is_some r.issue))
      || (not (is_protected r.coverage) && is_some r.issue) in
    if not (r.version == 1)
      || (not valid_id || (not valid_state || ltb 1024 (length r.replacements)))
    then some invalid_input
    else validate_all r.replacements

-- `Record::now`, with the seconds since the epoch, or `none` if the clock stands before it
unfoldable pub now :
    Option ℕ
    → Bytes
    → Route
    → Coverage
    → Outcome
    → ℕ × ℕ
    → ℕ × ℕ
    → List Replacement
    → Option Issue
    → Option Record
unfolding validate
now none request_id route coverage outcome request response replacements issue = none
now (some seconds) request_id route coverage outcome request response replacements issue =
    let r : Record = record {
      version = 1;
      timestamp = seconds;
      request_id = request_id;
      route = route;
      coverage = coverage;
      outcome = outcome;
      request_bytes_before = request.0;
      request_bytes_after = request.1;
      response_bytes_before = response.0;
      response_bytes_after = response.1;
      replacements = replacements;
      issue = issue;
    } in
    elim (validate r) [ none ↦ some r | some e ↦ none ]
