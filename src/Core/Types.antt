-- ===== src/Core/Types.antt =====
-- crates/blindfold-core/src/types.rs. The derived equality and order of an enum compare
-- discriminants, which are numbered in the order of declaration. The enums are marked
-- `non_exhaustive`; the model has the variants that exist.
use blindfold.Prelude.{ℕ, List}

pub data SecretKind : Type 0 where
  api_key token password private_key certificate credential_url : SecretKind
  personally_identifiable_information other : SecretKind

abbrev pub kind_rank : SecretKind → ℕ
kind_rank api_key = 0
kind_rank token = 1
kind_rank password = 2
kind_rank private_key = 3
kind_rank certificate = 4
kind_rank credential_url = 5
kind_rank personally_identifiable_information = 6
kind_rank other = 7

pub data Destination : Type 0 where
  model_provider agent tool child_process file log audit user trusted_local : Destination

abbrev pub destination_rank : Destination → ℕ
destination_rank model_provider = 0
destination_rank agent = 1
destination_rank tool = 2
destination_rank child_process = 3
destination_rank file = 4
destination_rank log = 5
destination_rank audit = 6
destination_rank user = 7
destination_rank trusted_local = 8

pub data Action : Type 0 where
  allow redact replace_with_safe_ref warn block : Action

-- Names and paths are lists of bytes.
pub data Source : Type 0 where
  environment_variable : List ℕ → Source
  file : List ℕ → Source
  standard_input process_output request response : Source
  tool : List ℕ → Source
  unknown : Source

pub data Sensitivity : Type 0 where
  public internal confidential secret restricted : Sensitivity

abbrev pub sensitivity_rank : Sensitivity → ℕ
sensitivity_rank public = 0
sensitivity_rank internal = 1
sensitivity_rank confidential = 2
sensitivity_rank secret = 3
sensitivity_rank restricted = 4
