-- ===== src/Buffer/Settled.antt =====
-- What saving a list of chunks leaves on disk, and what it drops.
use slog_agent.Base.{
  ℕ, suc, ◌+◌, List, [], ◌∷◌, ◌++◌, ◌≡◌, ◌≢◌, inl, inr, arith, refl, All, ◌∙◌, sym, ap,
}
use slog_agent.Buffer.Disk.{LogChunk}
use slog_agent.Buffer.Operator.{Operator, WriteResult}
use slog_agent.Buffer.Manager.{Manager, unload_or_drop_chunk}
use slog_agent.Buffer.Accounting.{kept}
use slog_agent.Buffer.Stored.{
  file_of, IsOnDisk, Refused, IsLater, same-IsLater, IsLater-trans, Refused-IsLater, unload-Turn,
  unload-file_of, unload-IsLater,
}

-- Chunks that are saved or dropped in their order, each with its own result of the write, from a
-- manager and a number of saved chunks to others.
pub data Saves : List LogChunk → Manager → ℕ → Manager → ℕ → Type 0 where
  no_more : {man : Manager} {n : ℕ} → Saves [] man n man n
  save :
      {c : LogChunk} {cs : List LogChunk} {man man' : Manager} {n n' : ℕ} (io : WriteResult)
      → Saves cs
          (unload_or_drop_chunk io man c).2
          (kept n (unload_or_drop_chunk io man c).0)
          man'
          n'
      → Saves (c ∷ cs) man n man' n'

pub Saves-append :
    {cs ds : List LogChunk} {man man' man'' : Manager} {n n' n'' : ℕ}
    → Saves cs man n man' n'
    → Saves ds man' n' man'' n''
    → Saves (cs ++ ds) man n man'' n''
Saves-append no_more t = t
Saves-append (save io s) t = save io (Saves-append s t)

abbrev pub Other : LogChunk → LogChunk → Type 0
Other a b = b.id ≢ a.id

-- The IDs of the chunks are distinct.
abbrev pub AllOther : List LogChunk → Type 0
AllOther [] = Unit
AllOther (c ∷ cs) = All (Other c) cs × AllOther cs

-- What becomes of chunks between two states of the disk, with the numbers of those that are kept
-- and those that are dropped.
pub data Settled (before op : Operator) : List LogChunk → ℕ → ℕ → Type 0 where
  none_left : Settled before op [] 0 0
  keep :
      {c : LogChunk} {cs : List LogChunk} {k l : ℕ}
      → IsOnDisk before op c
      → Settled before op cs k l
      → Settled before op (c ∷ cs) (suc k) l
  lose :
      {c : LogChunk} {cs : List LogChunk} {k l : ℕ}
      → Refused before op c
      → Settled before op cs k l
      → Settled before op (c ∷ cs) k (suc l)

Saves-file_of :
    {cs : List LogChunk} {man man' : Manager} {n n' : ℕ} (c : LogChunk)
    → Saves cs man n man' n'
    → All (Other c) cs
    → file_of man'.operator c.id ≡ file_of man.operator c.id
Saves-file_of c no_more h = refl
Saves-file_of c (save {c = d} {man} io s) (h, hs) =
    Saves-file_of c s hs ∙ unload-file_of io man d c.id (λ e. h (sym e))

Saves-IsLater :
    {cs : List LogChunk} {man man' : Manager} {n n' : ℕ}
    → Saves cs man n man' n'
    → IsLater man.operator man'.operator
Saves-IsLater (no_more {man}) = same-IsLater man.operator
Saves-IsLater (save {c} {man} {man'} io s) =
    IsLater-trans man.operator (unload_or_drop_chunk io man c).2.operator man'.operator
      (unload-IsLater io man c) (Saves-IsLater s)

-- The files that the remaining chunks had are the same in an earlier state.
Settled-before :
    {before start op : Operator} {cs : List LogChunk} {k l : ℕ}
    → IsLater before start
    → Settled start op cs k l
    → All (λ c. file_of start c.id ≡ file_of before c.id) cs
    → Settled before op cs k l
Settled-before b none_left h = none_left
Settled-before b (keep (inl (s, e)) rest) (h, hs) = keep (inl (s, e ∙ h)) (Settled-before b rest hs)
Settled-before b (keep (inr d) rest) (h, hs) = keep (inr d) (Settled-before b rest hs)
Settled-before {before} {start} {op} b (lose {c} why rest) (h, hs) =
    lose (Refused-IsLater before start op op c b (same-IsLater op) why) (Settled-before b rest hs)

others-file_of :
    (io : WriteResult) (man : Manager) (c : LogChunk) (cs : List LogChunk)
    → All (Other c) cs
    → All
        (λ d. file_of (unload_or_drop_chunk io man c).2.operator d.id ≡ file_of man.operator d.id)
        cs
others-file_of io man c [] h = tt
others-file_of io man c (d ∷ cs) (h, hs) =
    (unload-file_of io man c d.id h, others-file_of io man c cs hs)

IsOnDisk-behind :
    (before op end : Operator) (c : LogChunk)
    → IsOnDisk before op c
    → file_of end c.id ≡ file_of op c.id
    → IsOnDisk before end c
IsOnDisk-behind before op end c (inl (s, e)) same = inl (s, same ∙ e)
IsOnDisk-behind before op end c (inr (d, e, on)) same = inr (d, e, same ∙ on)

-- Where the IDs are distinct, each chunk is on disk at the end or counted as dropped.
pub Saves-Settled :
    {cs : List LogChunk} {man man' : Manager} {n n' : ℕ}
    → Saves cs man n man' n'
    → AllOther cs
    → (k : ℕ) × (l : ℕ) × Settled man.operator man'.operator cs k l
      × (n' ≡ n + k)
      × (man'.dropped ≡ man.dropped + l)
Saves-Settled no_more h = (0, 0, none_left, omega arith, omega arith)
Saves-Settled (save {c} {cs} {man} {man'} {n} {n'} io s) (h, hs) =
    let (k, l, rest, saved_, dropped_) = Saves-Settled s hs in
    let later = Settled-before (unload-IsLater io man c) rest (others-file_of io man c cs h) in
    elim (unload-Turn io man c) [
      | inl (ok, same, on) ↦ (
        suc k,
        l,
        keep
            (IsOnDisk-behind man.operator (unload_or_drop_chunk io man c).2.operator man'.operator c
              on (Saves-file_of c s h))
            later,
        saved_ ∙ ap (λ b. kept n b + k) ok ∙ omega arith,
        omega (arith, dropped_, same),
      )
      | inr (ok, more, why) ↦ (
        k,
        suc l,
        lose
            (Refused-IsLater man.operator man.operator (unload_or_drop_chunk io man c).2.operator
              man'.operator c (same-IsLater man.operator) (Saves-IsLater s) why)
            later,
        saved_ ∙ ap (λ b. kept n b + k) ok,
        omega (arith, dropped_, more),
      )
    ]
