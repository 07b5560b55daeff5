-- ===== src/Proxy/Events.antt =====
-- crates/blindfold-proxy/src/sanitize.rs: `sanitize_sse` on server-sent events. Text is its UTF-8
-- bytes here; `serde_json` is a parameter.
pub mod Safe
use blindfold.Prelude.{
  ℕ, Bool, true, false, not, ◌&&◌, ◌||◌, Option, none, some, List, [], ◌∷◌, ◌++◌, leb, ◌==◌,
  if◌then◌else◌, ◌>>=◌, codes, bytes_eq,
}
use blindfold.Prelude.Splitting.{split_on}
use blindfold.Core.SafeRef.{Text, strip_prefix, split_once}
use blindfold.Proxy.Sanitize.{
  Sanitizer, Value, Observation, observe, is_unchanged, require, replace_char, sanitize_json,
}

pub data Provider : Type 0 where
  open_ai anthropic : Provider

-- `serde_json::from_str` and `serde_json::to_string`
pub record Json : Type 0 where
  pub from_str : Text → Option Value
  pub to_string : Value → Option Text

-- The ranges that the bytes behind a leading byte lie in.
abbrev tail_ranges : ℕ → Option (List (ℕ × ℕ))
tail_ranges c =
    if leb c 0x7f
    then some []
    else if leb 0xc2 c && leb c 0xdf
    then some ((0x80, 0xbf) ∷ [])
    else if c == 0xe0
    then some ((0xa0, 0xbf) ∷ (0x80, 0xbf) ∷ [])
    else if c == 0xed
    then some ((0x80, 0x9f) ∷ (0x80, 0xbf) ∷ [])
    else if leb 0xe1 c && leb c 0xef
    then some ((0x80, 0xbf) ∷ (0x80, 0xbf) ∷ [])
    else if c == 0xf0
    then some ((0x90, 0xbf) ∷ (0x80, 0xbf) ∷ (0x80, 0xbf) ∷ [])
    else if leb 0xf1 c && leb c 0xf3
    then some ((0x80, 0xbf) ∷ (0x80, 0xbf) ∷ (0x80, 0xbf) ∷ [])
    else if c == 0xf4
    then some ((0x80, 0x8f) ∷ (0x80, 0xbf) ∷ (0x80, 0xbf) ∷ [])
    else none

-- The ranges that are still open after a byte.
abbrev next_ranges : List (ℕ × ℕ) → ℕ → Option (List (ℕ × ℕ))
next_ranges [] c = tail_ranges c
next_ranges ((lo, hi) ∷ ranges) c = if leb lo c && leb c hi then some ranges else none

utf8_from : Option (List (ℕ × ℕ)) → List ℕ → Bool
utf8_from none bytes = false
utf8_from (some []) [] = true
utf8_from (some (range ∷ ranges)) [] = false
utf8_from (some ranges) (c ∷ bytes) = utf8_from (next_ranges ranges c) bytes

-- `std::str::from_utf8`
unfoldable pub from_utf8 : List ℕ → Option Text
unfolding utf8_from
from_utf8 bytes = if utf8_from (some []) bytes then some bytes else none

abbrev at_feed : Text → Bool
at_feed [] = false
at_feed (c ∷ text) = c == 10

-- `replace("\r\n", "\n")`
unfoldable pub replace_crlf : Text → Text
replace_crlf [] = []
replace_crlf (c ∷ text) = (if c == 13 && at_feed text then [] else c ∷ []) ++ replace_crlf text

abbrev pub or_text : Option Text → Text → Text
or_text none other = other
or_text (some text) other = text

-- A byte order mark is dropped, and line ends become line feeds.
unfoldable pub normalized : Text → Text
unfolding strip_prefix replace_crlf replace_char
normalized text =
    replace_char 13 (10 ∷ [])
      (replace_crlf (or_text (strip_prefix text (0xef ∷ 0xbb ∷ 0xbf ∷ [])) text))

pub record SseEvent : Type 0 where
  pub event : Option Text
  pub id : Option Text
  pub retry : Option Text
  pub lines : List Text

abbrev pub no_event : SseEvent
no_event = record { event = none; id = none; retry = none; lines = [] }

abbrev pub has_byte : ℕ → Text → Bool
has_byte b [] = false
has_byte b (c ∷ text) = c == b || has_byte b text

abbrev pub all_digits : Text → Bool
all_digits [] = true
all_digits (c ∷ text) = (leb 48 c && leb c 57) && all_digits text

abbrev pub is_number : Text → Bool
is_number [] = false
is_number (c ∷ text) = all_digits (c ∷ text)

abbrev pub set_field : Text → Text → SseEvent → SseEvent
set_field field value e =
    if bytes_eq field (codes "event")
    then record e { event = some value }
    else if bytes_eq field (codes "data")
    then record e { lines = e.lines ++ (value ∷ []) }
    else if bytes_eq field (codes "id") && not (has_byte 0 value)
    then record e { id = some value }
    else if bytes_eq field (codes "retry") && is_number value
    then record e { retry = some value }
    else e

abbrev push_parts : Text → Option (Text × Text) → SseEvent → SseEvent
push_parts line none e = set_field line [] e
push_parts line (some (field, value)) e =
    set_field field (or_text (strip_prefix value (32 ∷ [])) value) e

abbrev is_comment : Text → Bool
is_comment [] = false
is_comment (c ∷ line) = c == 58

-- `SseEvent::push`
unfoldable pub push_line : Text → SseEvent → SseEvent
unfolding strip_prefix split_once bytes_eq
push_line line e = if is_comment line then e else push_parts line (split_once line) e

abbrev pub is_none : Option Text → Bool
is_none none = true
is_none (some text) = false

abbrev pub no_lines : List Text → Bool
no_lines [] = true
no_lines (line ∷ lines) = false

abbrev pub is_idle : SseEvent → Bool
is_idle e = is_none e.event && (is_none e.id && (is_none e.retry && no_lines e.lines))

-- `join("\n")`
unfoldable pub join_lines : List Text → Text
join_lines [] = []
join_lines (line ∷ []) = line
join_lines (line ∷ next ∷ lines) = line ++ (10 ∷ join_lines (next ∷ lines))

-- The output and the observations.
abbrev pub Out : Type 0
Out = Text × List Observation

abbrev pub is_one_line : Text → Bool
is_one_line text = not (has_byte 13 text || (has_byte 10 text || has_byte 0 text))

abbrev pub is_done : Provider → Text → Bool
is_done open_ai payload = bytes_eq payload (codes "[DONE]")
is_done anthropic payload = false

abbrev pub is_empty : Text → Bool
is_empty [] = true
is_empty (c ∷ text) = false

module _ (json : Json) (provider : Provider) (s : Sanitizer) where
  -- `write_sse_text_field`
  unfoldable pub write_sse_text_field : Text → Text → Text → Out → Option Out
  write_sse_text_field name value pointer (output, observations) =
      let (safe, categories) = s.sanitize_traced value in
      do
        _ ← require (is_one_line safe)
        some (
          output ++ (name ++ (codes ": " ++ (safe ++ 10 ∷ []))),
          observations ++ observe pointer categories,
        )

  abbrev pub write_field : Text → Text → Option Text → Out → Option Out
  write_field name pointer none out = some out
  write_field name pointer (some value) out = write_sse_text_field name value pointer out

  abbrev pub write_retry : Option Text → Out → Option Out
  write_retry none out = some out
  write_retry (some retry) (output, observations) = do
    _ ← require (is_unchanged s retry)
    some (output ++ (codes "retry: " ++ (retry ++ 10 ∷ [])), observations)

  unfoldable pub write_payload : Text → Out → Option Out
  unfolding bytes_eq sanitize_json
  write_payload payload (output, observations) =
      if is_done provider payload
      then some (output ++ codes "data: [DONE]\n\n", observations)
      else (do
        value ← json.from_str payload
        (safe, seen) ← sanitize_json s value
        text ← json.to_string safe
        some (output ++ (codes "data: " ++ (text ++ 10 ∷ 10 ∷ [])), observations ++ seen))

  abbrev pub write_data : List Text → Out → Option Out
  write_data [] (output, observations) = some (output ++ (10 ∷ []), observations)
  write_data (line ∷ lines) out = write_payload (join_lines (line ∷ lines)) out

  -- `SseEvent::write_sanitized`; every field is taken, so the event is empty afterwards.
  unfoldable pub write_sanitized : SseEvent → Out → Option Out
  unfolding write_sse_text_field write_payload join_lines
  write_sanitized e out = if is_idle e then some out else (do
    named ← write_field (codes "event") (codes "/sse/event") e.event out
    known ← write_field (codes "id") (codes "/sse/id") e.id named
    timed ← write_retry e.retry known
    write_data e.lines timed)

  -- The loop over the lines, and the event behind the last one.
  unfoldable pub write_events : List Text → SseEvent → Out → Option Out
  unfolding write_sanitized push_line
  write_events [] e out = write_sanitized e out
  write_events (line ∷ lines) e out = elim (is_empty line) [
    | true ↦ (write_sanitized e out >>= write_events lines no_event)
    | false ↦ write_events lines (push_line line e) out
  ]

  unfoldable pub sanitize_sse : List ℕ → Option Out
  unfolding from_utf8 normalized split_on write_events
  sanitize_sse body = do
    text ← from_utf8 body
    write_events (split_on 10 (normalized text)) no_event ([], [])
