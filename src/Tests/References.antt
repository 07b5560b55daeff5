-- ===== src/Tests/References.antt =====
-- One reference, made and parsed.
use blindfold.Prelude.{◌≡◌, refl, codes, bytes_eq}
use blindfold.Core.SafeRef.{
  Text, environment, SafeRef, invalid_length, invalid_identifier, invalid_kind, invalid_format, ok,
  err, encode, from_id, parse,
}
use blindfold.Core.SafeRef.Laws.{parse-from_id, parse-accepts}

abbrev sample_id : Text
sample_id = codes "0123456789abcdef0123456789abcdef"

abbrev sample_ref : SafeRef
sample_ref = record {
  kind = environment;
  encoded = codes "{{BLINDFOLD:v1:ENV:0123456789abcdef0123456789abcdef}}";
}

from_id_run : from_id environment sample_id ≡ ok sample_ref
unfolding from_id encode
from_id_run = refl

parse_run : parse sample_ref.encoded ≡ ok sample_ref
unfolding parse bytes_eq
parse_run = refl

short_run : from_id environment (codes "0123") ≡ err invalid_length
unfolding from_id
short_run = refl

capital_run :
    from_id environment (codes "0123456789ABCDEF0123456789abcdef") ≡ err invalid_identifier
unfolding from_id
capital_run = refl

kind_run :
    parse (codes "{{BLINDFOLD:v1:OTHER:0123456789abcdef0123456789abcdef}}") ≡ err invalid_kind
unfolding parse bytes_eq
kind_run = refl

version_run :
    parse (codes "{{BLINDFOLD:v2:ENV:0123456789abcdef0123456789abcdef}}") ≡ err invalid_format
unfolding parse bytes_eq
version_run = refl

parse-from_id_example : (sample_ref.kind ≡ environment) × (parse sample_ref.encoded ≡ ok sample_ref)
parse-from_id_example = parse-from_id environment sample_id sample_ref from_id_run

parse-accepts_example :
    (sample_ref.encoded ≡ sample_ref.encoded)
    × ((id : Text) × (from_id environment id ≡ ok sample_ref))
parse-accepts_example = parse-accepts sample_ref.encoded sample_ref parse_run
