-- ===== src/Pipeline/Tests.antt =====
-- The theorems on the worker at a chunk maker that makes a chunk of every second stream, in
-- two outputs.
use slog_agent.Base.{
  append-nil, false, List, [], ◌∷◌, ◌++◌, none, some, if◌then◌else◌, true, ◌≡◌, refl, codes, Bytes,
  Option,
}
use slog_agent.Input.Parser.{LogRecord}
use slog_agent.Transform.Matcher.{LogMatcher, str_any, match_fields, match_value}
use slog_agent.Transform.Run.{done, then_, drop_, drop_transform, drop_matched, run_transforms}
use slog_agent.Transform.Drop.{new_drop}
use slog_agent.Pipeline.Worker.{
  Chunk, OutputInterface, IsChunkMaker, LogProcessingWorker, write_record, on_record, on_input,
  on_stop,
}
use slog_agent.Pipeline.Order.{IsServed, on_input-IsServed, Flushed, on_stop-Flushed}

abbrev first_field : List Bytes → Bytes
first_field [] = []
first_field (f ∷ fs) = f

abbrev pair_up : List Bytes → Bytes → List Bytes × Option Chunk
pair_up [] b = (b ∷ [], none)
pair_up (a ∷ s) b = ([], some (a ∷ s ++ b ∷ []))

abbrev flush_some : List Bytes → List Bytes × Option Chunk
flush_some [] = ([], none)
flush_some (a ∷ s) = ([], some (a ∷ s))

abbrev maker : OutputInterface (List Bytes)
maker = record {
  serialize_record = λ r. (first_field r.fields, r);
  write_stream = pair_up;
  flush_buffer = flush_some;
}

-- A serializer that unescapes, and marks the record as unescaped.
abbrev marking : OutputInterface (List Bytes)
marking = record maker {
  serialize_record = λ r. (
    if r.unescaped then first_field r.fields else codes "-" ++ first_field r.fields,
    record r { unescaped = true },
  );
}

abbrev held : List Bytes → List Bytes
held s = s

maker-IsChunkMaker : IsChunkMaker held maker
maker-IsChunkMaker = record {
  write_law = elim [ [] ↦ λ b. refl | a ∷ s ↦ λ b. append-nil (a ∷ (s ++ b ∷ [])) ];
  flush_law = elim [ [] ↦ refl | a ∷ s ↦ refl ];
  empty_law = elim [ [] ↦ refl | a ∷ s ↦ refl ];
}

marking-IsChunkMaker : IsChunkMaker held marking
marking-IsChunkMaker = record {
  write_law = maker-IsChunkMaker.write_law;
  flush_law = maker-IsChunkMaker.flush_law;
  empty_law = maker-IsChunkMaker.empty_law;
}

abbrev m : LogMatcher
m = (0, str_any) ∷ []

abbrev log : Bytes → LogRecord
log text = record { fields = text ∷ []; raw_length = 9; timestamp = 0; unescaped = false }

abbrev worker : LogProcessingWorker (List Bytes)
worker = record {
  transform_list = then_ (drop_ (new_drop m 50)) done;
  output_list =
      record { ops = marking; state = []; accepted = [] }
      ∷ record { ops = marking; state = []; accepted = [] }
      ∷ [];
  passed = 0;
  dropped = 0;
}

-- The first and the third record pass. The second output gets them unescaped already.
abbrev logs : List LogRecord
logs = log (codes "a") ∷ log (codes "b") ∷ log (codes "c") ∷ []

abbrev served : LogProcessingWorker (List Bytes)
served = record {
  transform_list =
      then_
        (drop_ (record (new_drop m 50) {
          total_matched = 3;
          total_dropped = 1;
          dropped = (1, 9);
          retained = (2, 18);
        }))
        done;
  output_list =
      record { ops = marking; state = []; accepted = codes "-a" ∷ codes "-c" ∷ [] }
      ∷ record { ops = marking; state = []; accepted = codes "a" ∷ codes "c" ∷ [] }
      ∷ [];
  passed = 2;
  dropped = 1;
}

on_input-logs : on_input logs worker ≡ some served
unfolding on_input on_record run_transforms drop_transform drop_matched match_fields match_value
    write_record
on_input-logs = refl

on_input-IsServed_example : IsServed held logs worker served
on_input-IsServed_example =
    on_input-IsServed held logs worker served (marking-IsChunkMaker, (marking-IsChunkMaker, tt))
      on_input-logs

on_stop-Flushed_example : Flushed held served.output_list (on_stop served).output_list
on_stop-Flushed_example =
    on_stop-Flushed held served (marking-IsChunkMaker, (marking-IsChunkMaker, tt))
