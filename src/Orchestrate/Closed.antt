-- ===== src/Orchestrate/Closed.antt =====
-- The end of a sink.
use slog_agent.Base.{
  ℕ, Bool, true, false, List, [], ◌∷◌, ◌++◌, ◌≡◌, refl, ap, sym, ◌∙◌, arith, ◌==◌, if◌then◌else◌,
  length, inl, inr, Bool-cases, append-nil, append_assoc,
}
use slog_agent.Input.Parser.{LogRecord}
use slog_agent.Orchestrate.KeySet.{ChannelInputBuffer, flush, Links, Sink, flush_all, close}

-- The records of the batches that the channel took in time, or of those that it did not.
abbrev pub batched : Bool → List (Bool × List LogRecord) → List LogRecord
batched true [] = []
batched true ((taken, rs) ∷ batches) = (if taken then rs else []) ++ batched true batches
batched false [] = []
batched false ((taken, rs) ∷ batches) = (if taken then [] else rs) ++ batched false batches

abbrev pub delivered : ChannelInputBuffer → List LogRecord
delivered cache = batched true cache.batches

abbrev pub lost : ChannelInputBuffer → List LogRecord
lost cache = batched false cache.batches

-- A buffer that has sent what was pending: the channel has it, or it is lost.
pub record IsSent (takes : Bool) (cache cache' : ChannelInputBuffer) : Type 0 where
  pub none_pending : cache'.pending_logs ≡ []
  pub to_channel : delivered cache' ≡ delivered cache ++ (if takes then cache.pending_logs else [])
  pub to_nowhere : lost cache' ≡ lost cache ++ (if takes then [] else cache.pending_logs)

-- Each link is there with its buffer sent; the flag of a link goes by the number of links behind.
abbrev pub AreSent : (ℕ → Bool) → Links → Links → Type 0
AreSent takes [] [] = Unit
AreSent takes ((j, cache) ∷ links) ((j', cache') ∷ links') =
    (j' ≡ j) × IsSent (takes (length links)) cache cache' × AreSent takes links links'
AreSent takes _ _ = ⊥

batched-append :
    (b t : Bool) (bs : List (Bool × List LogRecord)) (rs : List LogRecord)
    → batched b (bs ++ (t, rs) ∷ [])
      ≡ batched b bs ++ (if t then (if b then rs else []) else (if b then [] else rs))
batched-append true true [] rs = append-nil rs
batched-append true false [] rs = refl
batched-append false true [] rs = refl
batched-append false false [] rs = append-nil rs
batched-append true t ((t', rs') ∷ bs) rs =
    ap (λ s. (if t' then rs' else []) ++ s) (batched-append true t bs rs)
    ∙ sym (append_assoc (if t' then rs' else []) (batched true bs) _)
batched-append false t ((t', rs') ∷ bs) rs =
    ap (λ s. (if t' then [] else rs') ++ s) (batched-append false t bs rs)
    ∙ sym (append_assoc (if t' then [] else rs') (batched false bs) _)

flush-IsSent :
    (now : ℕ) (takes : Bool) (cache : ChannelInputBuffer)
    → IsSent takes cache (flush now takes cache)
unfolding flush
flush-IsSent now true cache = record {
  none_pending = refl;
  to_channel = batched-append true true cache.batches cache.pending_logs;
  to_nowhere = batched-append false true cache.batches cache.pending_logs;
}
flush-IsSent now false cache = record {
  none_pending = refl;
  to_channel = batched-append true false cache.batches cache.pending_logs;
  to_nowhere = batched-append false false cache.batches cache.pending_logs;
}

length_nil : (rs : List LogRecord) → (length rs == 0) ≡ true → rs ≡ []
length_nil [] h = refl
length_nil (r ∷ rs) h = absurd (ground arith)

kept-IsSent :
    (takes : Bool) (cache : ChannelInputBuffer) → cache.pending_logs ≡ [] → IsSent takes cache cache
kept-IsSent true cache e = record {
  none_pending = e;
  to_channel = rw e (sym (append-nil (delivered cache)));
  to_nowhere = sym (append-nil (lost cache));
}
kept-IsSent false cache e = record {
  none_pending = e;
  to_channel = sym (append-nil (delivered cache));
  to_nowhere = rw e (sym (append-nil (lost cache)));
}

flush_all-AreSent :
    (now interval : ℕ) (takes : ℕ → Bool) (links : Links)
    → AreSent takes links (flush_all now interval takes true links)
unfolding flush_all
flush_all-AreSent now interval takes [] = tt
flush_all-AreSent now interval takes ((j, cache) ∷ links) =
    let behind = flush_all-AreSent now interval takes links in
    let here = takes (length links) in
    elim (Bool-cases (length cache.pending_logs == 0)) [
      | inl yes' ↦
          rw yes' (refl, kept-IsSent here cache (length_nil cache.pending_logs yes'), behind)
      | inr no' ↦ rw no' (refl, flush-IsSent now here cache, behind)
    ]

-- `Close` at any time leaves no record pending in a buffer of the sink. What was pending under a key
-- is behind what its channel was given, in order, if the channel takes that flush in time, and is
-- lost if not; nothing else is delivered or lost.
pub close-AreSent :
    (now interval : ℕ) (takes : ℕ → Bool) (sink : Sink)
    → AreSent takes sink.links (close now interval takes sink).links
unfolding close
close-AreSent now interval takes sink = flush_all-AreSent now interval takes sink.links
