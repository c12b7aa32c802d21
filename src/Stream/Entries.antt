-- ===== src/Stream/Entries.antt =====
-- All that a stream is given to send, up to the first failure.
use heterogeneous_network.Base.{ℕ, ◌<◌, ◌≡◌, ◌⊎◌, List, [], ◌∷◌, ◌++◌, Option, none, some}
use heterogeneous_network.Stream.Socket.{
  FrameAccumulator, new_accumulator, SendError, Progress, sent, failed, waits, rejected, unfinished,
  unsettled,
}
use heterogeneous_network.Stream.Carry.{Reply, Script, Carries}

-- The calls that data cause at the other end: none, where they are empty.
abbrev pub calls_for : List (List ℕ) → List (List ℕ)
calls_for [] = []
calls_for ([] ∷ ds) = calls_for ds
calls_for ((b ∷ bs) ∷ ds) = (b ∷ bs) ∷ calls_for ds

-- `onSend` was called with `Ok` for all.
abbrev pub settled : List (List ℕ) → List (Option (Option SendError))
settled [] = []
settled (d ∷ ds) = some none ∷ settled ds

-- What is reported of the datum that the task stopped at: an error, or nothing.
abbrev pub stopped : Option SendError → Option (Option SendError)
stopped none = none
stopped (some e) = some (some e)

-- What is left of the data after those that were sent: nothing, or the one that failed or is never
-- reported, which may have caused a call, and those after it, which are never reported.
abbrev pub IsLeft : List (List ℕ) → List (List ℕ) → List (Option (Option SendError)) → Type 0
IsLeft [] us rs = (us ≡ []) × (rs ≡ [])
IsLeft (d ∷ ds) us rs =
    ((us ≡ []) ⊎ (us ≡ d ∷ [])) × (o : Option SendError) × (rs ≡ stopped o ∷ unsettled ds)

module _ (room : List Reply → ℕ) (has_room : (rs : List Reply) → 1 < room rs) where
  abbrev OneSent : List ℕ → Script → Progress Script → Type 0
  OneSent data_of s (sent s') =
      Carries s s' new_accumulator new_accumulator (calls_for (data_of ∷ []))
  OneSent data_of s (failed e s') =
      (a : FrameAccumulator) × (us : List (List ℕ)) × Carries s s' new_accumulator a us
      × ((us ≡ []) ⊎ (us ≡ data_of ∷ []))
  OneSent data_of s (waits s') =
      (a : FrameAccumulator) × (us : List (List ℕ)) × Carries s s' new_accumulator a us
      × ((us ≡ []) ⊎ (us ≡ data_of ∷ []))
  OneSent data_of s rejected = ⊥
  OneSent data_of s unfinished = ⊥

  -- What the task did for the data, from the one state on.
  abbrev pub IsDelivered :
      List (List ℕ) → Script → List (Option (Option SendError)) × Script → Type 0
  IsDelivered ds s r =
      (done : List (List ℕ)) × (left : List (List ℕ)) × (us : List (List ℕ)) × (rs : List
        (Option (Option SendError)))
      × (a : FrameAccumulator) × (ds ≡ done ++ left)
      × (r.0 ≡ settled done ++ rs)
      × IsLeft left us rs
      × Carries s r.1 new_accumulator a (calls_for done ++ us)
