-- ===== src/Api/Stream/Wire/Reader.antt =====
-- The stream as a browser's `EventSource` reads it, after the text/event-stream format of the HTML
-- standard: lines, comments, the fields "event" and "data", and a blank line that dispatches.
use mathlib.Core.List.{flat_map, append_assoc, append-nil}
use temporal_agent_sandbox.Prelude.{
  ℕ, Text, codes, ◌==◌, nat_eq, Option, none, some, Bool, true, false, ◌&&◌, List, [], ◌∷◌, ◌++◌,
  if◌then◌else◌, ◌≡◌, ◌≢◌, refl, sym, ap, ◌∙◌, arith, All,
}
use temporal_agent_sandbox.Prelude.Json.Value.{Json, dumps}
use temporal_agent_sandbox.Prelude.Json.Value.Printable.{IsPrintable, dumps-IsPrintable}
use temporal_agent_sandbox.Config.{Settings}
use temporal_agent_sandbox.Api.Stream.{
  Poll, Frame, event, done, keepalive, sse_event, start, max_duration, gen,
}
use temporal_agent_sandbox.Api.Stream.Protocol.{
  Stream, silent, begins, Rest, broken_off, alive, steps, ends, expires, gen-Stream,
}
use temporal_agent_sandbox.Api.Stream.Wire.{
  payload_json, done_json, sse, frame_text, sorted_dump, stream_text,
}

-- A line ends at a line feed, at a carriage return, or at both.
pub data Kind : Type 0 where
  skipped end_lf end_cr inside : Kind

abbrev kind : Bool → ℕ → Kind
kind after_cr c =
    if after_cr && nat_eq c 10
    then skipped
    else if nat_eq c 10
    then end_lf
    else if nat_eq c 13
    then end_cr
    else inside

-- the complete lines; what stands behind the last line end is not one
pub lines_from : Bool → Text → Text → List Text
lines_from after_cr line [] = []
lines_from after_cr line (c ∷ s) = elim (kind after_cr c) [
  | skipped ↦ lines_from false line s
  | end_lf ↦ line ∷ lines_from false [] s
  | end_cr ↦ line ∷ lines_from true [] s
  | inside ↦ lines_from false (line ++ c ∷ []) s
]

pub data Line : Type 0 where
  blank comment : Line
  entry : Text → Text → Line

-- name and value around the first colon
pub split_colon : Text → Text × Text
split_colon [] = ([], [])
split_colon (c ∷ s) =
    let (name, value) = split_colon s in if nat_eq c b':' then ([], s) else (c ∷ name, value)

pub strip_space : Text → Text
strip_space [] = []
strip_space (c ∷ s) = if nat_eq c b' ' then s else c ∷ s

pub parse_line : Text → Line
unfolding split_colon strip_space
parse_line [] = blank
parse_line (c ∷ s) =
    if nat_eq c b':'
    then comment
    else let (name, value) = split_colon (c ∷ s) in entry name (strip_space value)

-- the buffers of the event's name and data after a field
pub add_data : Option Text → Text → Option Text
add_data none v = some v
add_data (some d) v = some (d ++ 10 ∷ v)

abbrev dispatch : Text → Option Text → List (Text × Text) → List (Text × Text)
dispatch name none rest = rest
dispatch name (some d) rest = (name, d) ∷ rest

pub read_lines : Text → Option Text → List Text → List (Text × Text)
unfolding add_data parse_line
read_lines name buffer [] = []
read_lines name buffer (l ∷ ls) = elim (parse_line l) [
  | blank ↦ dispatch name buffer (read_lines [] none ls)
  | comment ↦ read_lines name buffer ls
  | entry key value ↦
      read_lines (if key == codes "event" then value else name)
        (if key == codes "data" then add_data buffer value else buffer) ls
]

-- the events that a client dispatches for a text
pub read_events : Text → List (Text × Text)
unfolding lines_from read_lines
read_events s = read_lines [] none (lines_from false [] s)

abbrev pub NoBreak : Text → Type 0
NoBreak = All (λ c. (c ≢ 10) × (c ≢ 13))

NoBreak-IsPrintable : (s : Text) → IsPrintable s → NoBreak s
NoBreak-IsPrintable [] h = tt
NoBreak-IsPrintable (c ∷ s) (p, h) = ((λ e. omega arith, λ e. omega arith), NoBreak-IsPrintable s h)

lines_from-line :
    (line l s : Text)
    → NoBreak l
    → lines_from false line (l ++ 10 ∷ s) ≡ (line ++ l) ∷ lines_from false [] s
unfolding lines_from
lines_from-line line [] s h = ap (λ x. x ∷ lines_from false [] s) (sym (append-nil line))
lines_from-line line (c ∷ l) s (p, h) =
    let step : lines_from false line ((c ∷ l) ++ 10 ∷ s)
        ≡ lines_from false (line ++ c ∷ []) (l ++ 10 ∷ s) =
      ground (arith, p.0, p.1) in
    step
    ∙ lines_from-line (line ++ c ∷ []) l s h
    ∙ ap (λ x. x ∷ lines_from false [] s) (append_assoc line (c ∷ []) l)

read_event_lines :
    (name d : Text) (ls : List Text)
    → read_lines [] none ((codes "event: " ++ name) ∷ (codes "data: " ++ d) ∷ [] ∷ ls)
      ≡ (name, d) ∷ read_lines [] none ls
unfolding read_lines parse_line split_colon strip_space add_data codes ◌==◌
read_event_lines name d ls = refl

prefixed-NoBreak :
    (s : Text) → NoBreak s → NoBreak (codes "event: " ++ s) × NoBreak (codes "data: " ++ s)
unfolding codes
prefixed-NoBreak s h = ground arith

-- the text of an event, line by line
sse_lines :
    (name : Text) (v : Json) (s : Text)
    → sse name v ++ s
      ≡ (codes "event: " ++ name) ++ 10 ∷ ((codes "data: " ++ dumps v) ++ 10 ∷ 10 ∷ s)
unfolding sse codes
sse_lines name v s = simp append_assoc

read_events-sse :
    (name : Text) (v : Json) (s : Text)
    → NoBreak name
    → read_events (sse name v ++ s) ≡ (name, dumps v) ∷ read_events s
unfolding read_events lines_from
read_events-sse name v s h =
    let data_line = (prefixed-NoBreak (dumps v) (NoBreak-IsPrintable _ (dumps-IsPrintable v))).1 in
    ap read_events (sse_lines name v s)
    ∙ ap (read_lines [] none) (
        lines_from-line [] (codes "event: " ++ name) _ (prefixed-NoBreak name h).0
        ∙ ap (λ ls. (codes "event: " ++ name) ∷ ls)
            (lines_from-line [] (codes "data: " ++ dumps v) (10 ∷ s) data_line))
    ∙ read_event_lines name (dumps v) (lines_from false [] s)

read_events-keepalive : (s : Text) → read_events (codes ":keepalive\n\n" ++ s) ≡ read_events s
unfolding read_events lines_from read_lines parse_line codes
read_events-keepalive s = refl

-- The event that a frame is for a client; a comment is none.
abbrev pub event_of : Text → Frame → List (Text × Text)
event_of run_id (event name a) = (name, dumps (payload_json a)) ∷ []
event_of run_id (done reason) = (codes "done", dumps (done_json run_id reason)) ∷ []
event_of run_id keepalive = []

abbrev IsNamed : Frame → Type 0
IsNamed (event name a) = NoBreak name
IsNamed _ = Unit

sse_event-NoBreak : (status : Text) → NoBreak (sse_event status)
unfolding sse_event codes
sse_event-NoBreak status = ground arith

steps-NoBreak : NoBreak (codes "step") × NoBreak (codes "snapshot") × NoBreak (codes "done")
unfolding codes
steps-NoBreak = ground arith

Rest-IsNamed : {fs : List Frame} → Rest fs → All IsNamed fs
Rest-IsNamed broken_off = tt
Rest-IsNamed (alive r) = (tt, Rest-IsNamed r)
Rest-IsNamed (steps a h r) = (steps-NoBreak.0, Rest-IsNamed r)
Rest-IsNamed (ends a h) = (sse_event-NoBreak a.status, (tt, tt))
Rest-IsNamed expires = (tt, tt)

Stream-IsNamed : {fs : List Frame} → Stream fs → All IsNamed fs
Stream-IsNamed silent = tt
Stream-IsNamed (begins a r) = (steps-NoBreak.1, Rest-IsNamed r)

read_events-frames :
    (run_id : Text) (fs : List Frame)
    → All IsNamed fs
    → read_events (flat_map (frame_text run_id) fs) ≡ flat_map (event_of run_id) fs
unfolding flat_map frame_text
read_events-frames run_id [] h = unfold read_events lines_from read_lines in refl
read_events-frames run_id (event name a ∷ fs) (n, h) =
    read_events-sse name (payload_json a) _ n
    ∙ ap (λ es. (name, dumps (payload_json a)) ∷ es) (read_events-frames run_id fs h)
read_events-frames run_id (done reason ∷ fs) (_, h) =
    read_events-sse (codes "done") (done_json run_id reason) _ (steps-NoBreak.2)
    ∙ ap (λ es. (codes "done", dumps (done_json run_id reason)) ∷ es)
        (read_events-frames run_id fs h)
read_events-frames run_id (keepalive ∷ fs) (_, h) =
    read_events-keepalive _ ∙ read_events-frames run_id fs h

-- Whatever the polls answer, a client that reads the text of the stream as an `EventSource` does gets
-- exactly the events that were sent, in order, each with its name and with the JSON text of its
-- payload: no text in a payload ends a line, or adds an event, and keepalives are not seen.
pub read_events-stream_text :
    (s : Settings) (run_id : Text) (polls : List Poll)
    → read_events (stream_text s run_id polls)
      ≡ flat_map (event_of run_id) (gen sorted_dump (max_duration s) start polls).0
unfolding stream_text
read_events-stream_text s run_id polls =
    read_events-frames run_id _ (Stream-IsNamed (gen-Stream sorted_dump (max_duration s) polls))
