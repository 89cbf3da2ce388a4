-- ===== src/Orchestrate/Tests.antt =====
-- The theorems on the distribution of records at concrete inputs.
use slog_agent.Base.{
  true, false, List, [], ◌∷◌, some, ◌≡◌, refl, arith, codes, Bytes, bytes_eq, if◌then◌else◌,
}
use mathlib.Core.List.{flatten}
use slog_agent.Input.Parser.{LogRecord}
use slog_agent.Orchestrate.KeySet.{find_pipeline, new_pipeline, has_link, Sink, accept, close}
use slog_agent.Orchestrate.Accepted.{HasKeys, IsRouted, accept-IsRouted}
use slog_agent.Orchestrate.Closed.{AreSent, close-AreSent}
use slog_agent.Orchestrate.Shared.{keys_of, own_pipeline, accept-shared_pipeline}

abbrev log : Bytes → Bytes → LogRecord
log app level = record {
  fields = app ∷ level ∷ codes "text" ∷ [];
  raw_length = 7;
  timestamp = 5;
  unescaped = false;
}

abbrev logs : List LogRecord
logs =
    log (codes "ab") (codes "c") ∷ log (codes "d") (codes "e") ∷ log (codes "a") (codes "bc") ∷ []

abbrev sink : Sink
sink = record { key_locators = 0 ∷ 1 ∷ []; links = []; pipelines = [] }

abbrev logs-HasKeys : (app level : Bytes) → HasKeys (0 ∷ 1 ∷ []) (log app level)
logs-HasKeys app level = (omega arith, (omega arith, tt))

-- The first and the last of the records have different keys and come to one pipeline.
accept-IsRouted_example :
    (out : Sink) × (accept 9 (λ n. true) logs sink ≡ some out) × IsRouted logs sink out
accept-IsRouted_example =
    accept-IsRouted 9 (λ n. true) logs sink
      (
        logs-HasKeys (codes "ab") (codes "c"),
        (logs-HasKeys (codes "d") (codes "e"), (logs-HasKeys (codes "a") (codes "bc"), tt)),
      )

abbrev full_sink : Sink
full_sink = record {
  key_locators = 0 ∷ [];
  links =
      (
        codes "ab",
        record { pending_logs = logs; pending_bytes = 21; last_flush_time = 4; batches = [] },
      )
      ∷ [];
  pipelines = new_pipeline (codes "ab" ∷ []) (codes "ab") ∷ [];
}

-- The channel does not take the records in time.
close-AreSent_example :
    AreSent (λ n. false) full_sink.links (close 9 5 (λ n. false) full_sink).links
close-AreSent_example = close-AreSent 9 5 (λ n. false) full_sink

abbrev first : LogRecord
first = log (codes "ab") (codes "c")

abbrev second : LogRecord
second = log (codes "a") (codes "bc")

-- The key sets (ab, c) and (a, bc) have one text.
accept-shared_pipeline_example :
    (out : Sink) × (accept 9 (λ n. true) (first ∷ second ∷ []) sink ≡ some out)
    × (find_pipeline (flatten (keys_of (0 ∷ 1 ∷ []) second)) out.pipelines
        ≡ some (
            if bytes_eq
              (flatten (keys_of (0 ∷ 1 ∷ []) first))
              (flatten (keys_of (0 ∷ 1 ∷ []) second))
            then own_pipeline (keys_of (0 ∷ 1 ∷ []) first)
            else own_pipeline (keys_of (0 ∷ 1 ∷ []) second)))
unfolding has_link find_pipeline
accept-shared_pipeline_example =
    accept-shared_pipeline 9 (λ n. true) first second sink (logs-HasKeys (codes "ab") (codes "c"))
      (logs-HasKeys (codes "a") (codes "bc")) refl refl refl refl
