-- ===== src/Output/Event/Tests.antt =====
-- The serializer at a concrete schema, with a rewriter, and a record.
use slog_agent.Base.{
  false, List, [], ◌∷◌, Option, none, some, if◌then◌else◌, Bytes, bytes_eq, codes, ◌≡◌, refl, arith,
}
use slog_agent.Input.Parser.{LogRecord}
use slog_agent.Output.Rewrite.{LogRewriter, max_field_length, inline, unescape}
use slog_agent.Output.Event.{EventSerializer, listed, new_event_serializer}
use slog_agent.Output.Event.Value.{LawfulRewriter}
use slog_agent.Output.Event.Rewriters.{lawful_rewriter}
use slog_agent.Output.Event.Served.{
  FitsSchema, config, occurs, IsSerializer, IsServed, new_event_serializer-IsSerializer,
  serialize_record-IsServed,
}

abbrev names : List Bytes
names = codes "app" ∷ codes "host" ∷ codes "log" ∷ codes "pid" ∷ []

abbrev env : List Bytes
env = codes "host" ∷ []

abbrev hidden : List Bytes
hidden = codes "pid" ∷ []

-- The field `log` is written with the application in front and its escapes read.
abbrev rewriter : LogRewriter
rewriter = inline (codes "app=") (codes " ") 0 unescape

abbrev lawful : Bytes → Option (LawfulRewriter 4)
lawful name =
    if bytes_eq name (codes "log")
    then some (lawful_rewriter rewriter 4 (omega arith, tt))
    else none

-- The field `log` is `a\nb`.
abbrev log : LogRecord
log = record {
  fields = codes "web" ∷ codes "h1" ∷ (97 ∷ 92 ∷ 110 ∷ 98 ∷ []) ∷ codes "7" ∷ [];
  raw_length = 10;
  timestamp = 1700000000000000005;
  unescaped = false;
}

names-FitsSchema : FitsSchema 4 names env
unfolding listed bytes_eq
names-FitsSchema = record {
  has_names = omega arith;
  few_names = omega arith;
  few_env = omega arith;
  short_names = (omega arith, (omega arith, (omega arith, (omega arith, tt))));
  short_env = (omega arith, tt);
  known_env = (refl, tt);
}

new_event_serializer-IsSerializer_example :
    (p : EventSerializer) × (new_event_serializer names (config names env hidden lawful) ≡ some p)
    × IsSerializer names env hidden lawful p
new_event_serializer-IsSerializer_example =
    new_event_serializer-IsSerializer names env hidden lawful names-FitsSchema

abbrev made : EventSerializer
made = (new_event_serializer-IsSerializer names env hidden lawful names-FitsSchema).0

serialize_record-IsServed_example : IsServed names env hidden lawful made log
unfolding occurs listed bytes_eq max_field_length
serialize_record-IsServed_example =
    serialize_record-IsServed names env hidden lawful made log names-FitsSchema
      (new_event_serializer-IsSerializer names env hidden lawful names-FitsSchema).2 refl
      (omega arith)
