-- ===== src/Detectors/Finding.antt =====
-- crates/blindfold-detectors/src/finding.rs: spans, confidences, kinds and findings. The derived
-- orders of the enums compare discriminants, which are numbered in the order of declaration.
use Prim.Native.String.{String}
use blindfold.Prelude.{
  ℕ, ◌-◌, ◌<◌, Bool, ◌&&◌, ◌≡◌, Option, none, some, ltb, leb, if◌then◌else◌, arith,
}

-- A half-open byte range. The fields are private in the source: `new` is the only way to make one.
pub record Span : Type 0 where
  pub start : ℕ
  pub end : ℕ

-- `None` is `Err(SpanError)`.
unfoldable pub new : ℕ → ℕ → Option Span
new start end = if leb end start then none else some (record { start = start; end = end })

unfoldable pub len : Span → ℕ
len s = s.end - s.start

unfoldable pub overlaps : Span → Span → Bool
overlaps s other = ltb s.start other.end && ltb other.start s.end

-- What `new` establishes.
abbrev pub IsSpan : Span → Type 0
IsSpan s = s.start < s.end

pub new-IsSpan : (a b : ℕ) (s : Span) → new a b ≡ some s → IsSpan s
unfolding new
new-IsSpan a b s h = ground arith

pub data Confidence : Type 0 where
  contextual high certain : Confidence

abbrev pub confidence_rank : Confidence → ℕ
confidence_rank contextual = 0
confidence_rank high = 1
confidence_rank certain = 2

pub data SecretKind : Type 0 where
  open_ai_api_key anthropic_api_key git_hub_token stripe_key slack_token : SecretKind
  aws_access_key_id aws_secret_access_key bearer_token json_web_token : SecretKind
  o_auth_token pem_private_key credential_url email_address phone_number : SecretKind
  password api_key token : SecretKind

abbrev pub kind_rank : SecretKind → ℕ
kind_rank open_ai_api_key = 0
kind_rank anthropic_api_key = 1
kind_rank git_hub_token = 2
kind_rank stripe_key = 3
kind_rank slack_token = 4
kind_rank aws_access_key_id = 5
kind_rank aws_secret_access_key = 6
kind_rank bearer_token = 7
kind_rank json_web_token = 8
kind_rank o_auth_token = 9
kind_rank pem_private_key = 10
kind_rank credential_url = 11
kind_rank email_address = 12
kind_rank phone_number = 13
kind_rank password = 14
kind_rank api_key = 15
kind_rank token = 16

unfoldable pub label : SecretKind → String
label open_ai_api_key = "openai_api_key"
label anthropic_api_key = "anthropic_api_key"
label git_hub_token = "github_token"
label stripe_key = "stripe_key"
label slack_token = "slack_token"
label aws_access_key_id = "aws_access_key_id"
label aws_secret_access_key = "aws_secret_access_key"
label bearer_token = "bearer_token"
label json_web_token = "jwt"
label o_auth_token = "oauth_token"
label pem_private_key = "pem_private_key"
label credential_url = "credential_url"
label email_address = "email_address"
label phone_number = "phone_number"
label password = "password"
label api_key = "api_key"
label token = "token"

pub record Finding : Type 0 where
  pub kind : SecretKind
  pub span : Span
  pub confidence : Confidence
  pub detector : String
