-- ===== src/Stream/Delivery.antt =====
-- Data that a stream sends, and what the listener at the other end is called with.
use heterogeneous_network.Base.{
  ℕ, zero, suc, ◌<◌, ◌≡◌, refl, sym, ap, ◌∙◌, ◌⊎◌, inl, inr, true, false, List, [], ◌∷◌, ◌++◌, none,
  some, ok, arith, length, take, drop, All, All-append, length-drop, take-drop, All-take, All-drop,
  ◌==◌,
}
use heterogeneous_network.Base.Int.{ℤ, pos}
use mathlib.Core.Path.{subst}
use mathlib.Core.List.{append_assoc, append-nil}
use heterogeneous_network.Serde.Buffer.Writing.{IsByte}
use heterogeneous_network.Stream.Frame.{StreamFrame, stream_bytes}
use heterogeneous_network.Stream.Socket.{
  FrameAccumulator, new_accumulator, Answer, settles, never, Progress, sent, failed, waits,
  rejected, unfinished, subarray_to, subarray_from, inner_send, after_send, send_loop, accumulate,
}
use heterogeneous_network.Stream.Accumulate.{concat, concat-snoc}
use heterogeneous_network.Stream.Carry.{
  Reply, Script, reply, scripted, Hands, reply-Hands, inner_send-bytes, accumulate-last, Carries,
  Carries-same, Carries-append, Carries-one,
}

suc_not_zero : (n : ℕ) → (suc n == 0) ≡ false
suc_not_zero n = ground arith

abbrev pub holding : List (List ℕ) → FrameAccumulator
holding ps = record { payloads = ps }

module _ (room : List Reply → ℕ) where
  -- The receiver holds the payloads `ps`, and the loop stops: it may have made it call back with these
  -- and the buffer, or not.
  abbrev pub Stops : List (List ℕ) → List ℕ → Script → Script → Type 0
  Stops ps buffer s s' =
      (a : FrameAccumulator) × (us : List (List ℕ)) × Carries s s' (holding ps) a us
      × ((us ≡ []) ⊎ (us ≡ (concat ps ++ buffer) ∷ []))

  -- The receiver holds the payloads `ps`. A loop that ends well makes it call back with these and the
  -- buffer, and holds nothing then; one that fails may have made this call or none.
  abbrev pub Sends : List (List ℕ) → List ℕ → Script → Progress Script → Type 0
  Sends ps buffer s (sent s') =
      Carries s s' (holding ps) new_accumulator ((concat ps ++ buffer) ∷ [])
  Sends ps buffer s (failed e s') = Stops ps buffer s s'
  Sends ps buffer s (waits s') = Stops ps buffer s s'
  Sends ps buffer s rejected = ⊥
  Sends ps buffer s unfinished = ⊥

  -- A frame whose `send` fails or is never settled.
  failure-Stops :
      (f : StreamFrame) (ps : List (List ℕ)) (buffer : List ℕ) (s s' : Script)
      (a : FrameAccumulator) (us : List (List ℕ))
      → (s'.handed ≡ s.handed) ⊎ (s'.handed ≡ s.handed ++ (stream_bytes f ∷ []))
      → accumulate f (holding ps) ≡ ok (a, us)
      → (us ≡ []) ⊎ (us ≡ (concat ps ++ buffer) ∷ [])
      → Stops ps buffer s s'
  failure-Stops f ps buffer s s' a us (inl same) k u =
      (holding ps, [], Carries-same s s' (holding ps) same, inl refl)
  failure-Stops f ps buffer s s' a us (inr one) k u =
      (a, us, Carries-one f s s' (holding ps) a us one k, u)

  -- The last frame of the data.
  last_round :
      (fuel : ℕ) (max : ℤ) (chunk : List ℕ) (ps : List (List ℕ)) (s : Script)
      → All (All IsByte) ps
      → All IsByte chunk
      → Sends ps chunk s (
          after_send
            (λ s'. send_loop (scripted room) (suc fuel) max [] s')
            (inner_send (scripted room) (record { fin = true; payload = chunk }) s))
  unfolding send_loop
  last_round fuel max chunk ps s h k = rw (inner_send-bytes (scripted room) f s k) (
      go (reply s.replies (stream_bytes f) s.handed)
        (reply-Hands s.replies (stream_bytes f) s.handed))
    where
      f : StreamFrame
      f = record { fin = true; payload = chunk }

      go :
          (r : Answer × Script)
          → Hands (stream_bytes f) s.handed r
          → Sends ps chunk s
              (after_send (λ s'. send_loop (scripted room) (suc fuel) max [] s') (ok r))
      go (settles none, s') e =
          Carries-one f s s' (holding ps) new_accumulator _ e (accumulate-last chunk ps h k)
      go (settles (some er), s') e =
          failure-Stops f ps chunk s s' new_accumulator _ e (accumulate-last chunk ps h k)
            (inr refl)
      go (never, s') e =
          failure-Stops f ps chunk s s' new_accumulator _ e (accumulate-last chunk ps h k)
            (inr refl)

  -- What follows a frame that is not the last.
  more-Sends :
      (chunk rest : List ℕ) (ps : List (List ℕ)) (s s' : Script) (p : Progress Script)
      → Carries s s' (holding ps) (holding (ps ++ (chunk ∷ []))) []
      → Sends (ps ++ (chunk ∷ [])) rest s' p
      → Sends ps (chunk ++ rest) s p
  more-Sends chunk rest ps s s' p first h = go p h
    where
      whole : concat (ps ++ (chunk ∷ [])) ++ rest ≡ concat ps ++ (chunk ++ rest)
      whole = ap (λ l. l ++ rest) (concat-snoc ps chunk) ∙ append_assoc (concat ps) chunk rest

      go :
          (p : Progress Script)
          → Sends (ps ++ (chunk ∷ [])) rest s' p
          → Sends ps (chunk ++ rest) s p
      go (sent z) h = rw (sym whole) (
          Carries-append s s' z (holding ps) (holding (ps ++ (chunk ∷ []))) new_accumulator [] _
            first h)
      go (failed e z) h = (
        h.0,
        h.1,
        Carries-append s s' z (holding ps) (holding (ps ++ (chunk ∷ []))) h.0 [] h.1 first h.2,
        rw (sym whole) h.3,
      )
      go (waits z) h = (
        h.0,
        h.1,
        Carries-append s s' z (holding ps) (holding (ps ++ (chunk ∷ []))) h.0 [] h.1 first h.2,
        rw (sym whole) h.3,
      )
      go rejected h = h
      go unfinished h = h

  more_round :
      (next : Script → Progress Script) (chunk rest : List ℕ) (ps : List (List ℕ)) (s : Script)
      → All IsByte chunk
      → ((s' : Script) → Sends (ps ++ (chunk ∷ [])) rest s' (next s'))
      → Sends ps
          (chunk ++ rest)
          s
          (after_send next (inner_send (scripted room) (record { fin = false; payload = chunk }) s))
  unfolding accumulate
  more_round next chunk rest ps s k ih = rw (inner_send-bytes (scripted room) f s k) (
      go (reply s.replies (stream_bytes f) s.handed)
        (reply-Hands s.replies (stream_bytes f) s.handed))
    where
      f : StreamFrame
      f = record { fin = false; payload = chunk }

      go :
          (r : Answer × Script)
          → Hands (stream_bytes f) s.handed r
          → Sends ps (chunk ++ rest) s (after_send next (ok r))
      go (settles none, s') e =
          more-Sends chunk rest ps s s' (next s')
            (Carries-one f s s' (holding ps) (holding (ps ++ (chunk ∷ []))) [] e refl) (ih s')
      go (settles (some er), s') e =
          failure-Stops f ps (chunk ++ rest) s s' (holding (ps ++ (chunk ∷ []))) [] e refl
            (inl refl)
      go (never, s') e =
          failure-Stops f ps (chunk ++ rest) s s' (holding (ps ++ (chunk ∷ []))) [] e refl
            (inl refl)

  -- A round of the loop, from what the rounds after it do.
  a_round :
      (fuel : ℕ) (max : ℤ) (chunk rest : List ℕ) (ps : List (List ℕ)) (s : Script)
      → length rest < fuel
      → All IsByte chunk
      → All (All IsByte) ps
      → (0 < length rest
          → (s' : Script)
          → Sends (ps ++ (chunk ∷ [])) rest s' (send_loop (scripted room) fuel max rest s'))
      → Sends ps (chunk ++ rest) s (
          after_send
            (λ s'. send_loop (scripted room) fuel max rest s')
            (inner_send (scripted room) (record { fin = length rest == 0; payload = chunk }) s))
  a_round zero max chunk rest ps s h k j ih = absurd (omega (arith, h))
  a_round (suc fuel) max chunk [] ps s h k j ih =
      rw (append-nil chunk) (last_round fuel max chunk ps s j k)
  a_round (suc fuel) max chunk (c ∷ cs) ps s h k j ih = rw (suc_not_zero (length cs)) (
      more_round (λ s'. send_loop (scripted room) (suc fuel) max (c ∷ cs) s') chunk (c ∷ cs) ps s k
        (ih (omega arith)))

  -- While each frame has room for a byte, the loop ends in as many rounds as there are bytes.
  pub send_loop-Sends :
      (fuel m : ℕ) (buffer : List ℕ) (ps : List (List ℕ)) (s : Script)
      → 0 < length buffer
      → length buffer < fuel
      → All IsByte buffer
      → All (All IsByte) ps
      → Sends ps buffer s (send_loop (scripted room) fuel (pos (suc m)) buffer s)
  unfolding send_loop subarray_to subarray_from
  send_loop-Sends zero m buffer ps s n h k j = absurd (omega (arith, h))
  send_loop-Sends (suc fuel) m [] ps s n h k j = absurd (omega (arith, n))
  send_loop-Sends (suc fuel) m (b ∷ bs) ps s n h k j =
      let chunk = b ∷ take m bs in
      let rest = drop m bs in
      let small : length rest < fuel = omega (arith, h, length-drop m bs) in
      let first : All IsByte chunk = (k.0, All-take IsByte m bs k.1) in
      subst (λ l. Sends ps l s (send_loop (scripted room) (suc fuel) (pos (suc m)) (b ∷ bs) s))
        (ap (λ l. b ∷ l) (take-drop m bs))
        (a_round fuel (pos (suc m)) chunk rest ps s small first j (λ some_left s'.
          send_loop-Sends fuel m rest (ps ++ (chunk ∷ [])) s' some_left small
            (All-drop IsByte m bs k.1) (All-append (All IsByte) ps (chunk ∷ []) j (first, tt))))
