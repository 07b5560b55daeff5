-- ===== src/Tests/Proxying.antt =====
-- A JSON value that is sanitized.
use blindfold.Prelude.{
  true, ◌≡◌, refl, none, some, [], ◌∷◌, inl, inr, Bool-cases, codes, bytes_eq, if◌then◌else◌, All,
  List,
}
use blindfold.Core.SafeRef.{Text}
use blindfold.Trace.Record.{sensitive}
use blindfold.Proxy.Sanitize.{
  Sanitizer, of_sanitize, Value, bool, number, string, array, object, no_items, item, no_fields,
  field, Observation, sanitize_json,
}
use blindfold.Proxy.Events.{open_ai, Json, sanitize_sse}
use blindfold.Proxy.Events.Safe.{IsSafe, sanitize_sse-IsSafe}
use blindfold.Proxy.Sanitize.Clean.{IsFixed, IsClean, replaced, sanitize_json-IsClean}
use blindfold.Proxy.Sanitize.Observed.{HasKeys, PointsAt, sanitize_json-PointsAt}

abbrev hide : Text → Text
hide text = if bytes_eq text (codes "raw") then codes "safe" else text

abbrev hiding : Sanitizer
hiding = of_sanitize hide

hide_stable : (text : Text) → hide (hide text) ≡ hide text
hide_stable text = elim (Bool-cases (bytes_eq text (codes "raw"))) [
  | inl t ↦ rw t (unfold bytes_eq in refl)
  | inr f ↦ rw (f, f) refl
]

hiding_stable : (text : Text) → IsFixed hiding (hiding.sanitize_traced text).0
unfolding of_sanitize
hiding_stable = hide_stable

abbrev sent : Value
sent = object (
    field (codes "a/b") (array (item (number (codes "7")) (item (string (codes "raw")) no_items)))
      (field (codes "c") (bool true) no_fields))

abbrev received : Value
received = object (
    field (codes "a/b") (array (item (number (codes "7")) (item (string (codes "safe")) no_items)))
      (field (codes "c") (bool true) no_fields))

abbrev seen : List Observation
seen = record { category = sensitive; pointer = codes "/a~1b/1" } ∷ []

sanitize_json_run : sanitize_json hiding sent ≡ some (received, seen)
unfolding sanitize_json of_sanitize
sanitize_json_run = refl

number_run : sanitize_json hiding (number (codes "raw")) ≡ none
unfolding sanitize_json of_sanitize
number_run = refl

sent_keys : HasKeys sent
unfolding HasKeys
sent_keys = (((λ e. cc), tt), (tt, (tt, tt)), (tt, tt, tt))

sanitize_json-IsClean_example : IsClean hiding received × (received ≡ replaced hiding sent)
sanitize_json-IsClean_example =
    sanitize_json-IsClean hiding hiding_stable sent received seen sanitize_json_run

sanitize_json-PointsAt_example : All (PointsAt hiding sent) seen
sanitize_json-PointsAt_example =
    sanitize_json-PointsAt hiding sent received seen sent_keys sanitize_json_run

abbrev sample_json : Json
sample_json = record { from_str = λ text. some sent; to_string = λ value. some (codes "{}") }

abbrev stream : Text
stream = codes ": hello\r\nevent: raw\r\nretry: 10\r\ndata: {}\r\n\r\ndata: [DONE]\n\n"

abbrev sent_stream : Text
sent_stream = codes "event: safe\nretry: 10\ndata: {}\n\ndata: [DONE]\n\n"

abbrev stream_seen : List Observation
stream_seen =
    record { category = sensitive; pointer = codes "/sse/event" }
    ∷ record { category = sensitive; pointer = codes "/a~1b/1" }
    ∷ []

sanitize_sse_run : sanitize_sse sample_json open_ai hiding stream ≡ some (sent_stream, stream_seen)
unfolding sanitize_sse sanitize_json of_sanitize bytes_eq
sanitize_sse_run = refl

sanitize_sse-IsSafe_example : IsSafe sample_json open_ai hiding sent_stream
sanitize_sse-IsSafe_example =
    sanitize_sse-IsSafe sample_json open_ai hiding hiding_stable stream sent_stream stream_seen
      sanitize_sse_run
