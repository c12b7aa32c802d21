-- ===== src/Stream/Accumulate.antt =====
-- What FrameAccumulator makes of the payloads that it was given: their concatenation.
use heterogeneous_network.Base.{
  ℕ, ◌+◌, ◌≤◌, ◌≡◌, refl, sym, ap, ◌∙◌, true, List, [], ◌∷◌, ◌++◌, ◌%◌, ok, arith, leb, le→leb,
  length, drop, replicate, All, length-append, length-drop, length-replicate,
}
use mathlib.Core.List.{append_assoc, append-nil}
use native.Mathlib.Nat.{zero-add}
use heterogeneous_network.Serde.Buffer.{set_bytes}
use heterogeneous_network.Serde.Buffer.Writing.{IsByte, set_middle}
use heterogeneous_network.Stream.Socket.{new_accumulator, total_length, set_payloads, take_all}

abbrev pub concat : List (List ℕ) → List ℕ
concat [] = []
concat (p ∷ ps) = p ++ concat ps

pub concat-snoc : (ps : List (List ℕ)) (c : List ℕ) → concat (ps ++ (c ∷ [])) ≡ concat ps ++ c
concat-snoc [] c = append-nil c
concat-snoc (p ∷ ps) c = ap (λ l. p ++ l) (concat-snoc ps c) ∙ sym (append_assoc p (concat ps) c)

total_length-length : (n : ℕ) (ps : List (List ℕ)) → total_length n ps ≡ n + length (concat ps)
unfolding total_length
total_length-length n [] = omega arith
total_length-length n (p ∷ ps) =
    omega (arith, total_length-length (n + length p) ps, length-append p (concat ps))

-- `set` on a part of a buffer that starts where a prefix ends.
set_bytes-middle :
    (bs xs old : List ℕ)
    → All IsByte bs
    → length bs ≤ length old
    → set_bytes (xs ++ old) (length xs) bs ≡ (xs ++ bs) ++ drop (length bs) old
unfolding set_bytes
set_bytes-middle [] xs old h k = ap (λ l. l ++ old) (sym (append-nil xs))
set_bytes-middle (b ∷ bs) xs [] h k = absurd (omega (arith, k))
set_bytes-middle (b ∷ bs) xs (o ∷ old) h k =
    let small : b % 256 ≡ b = omega (arith, h.0) in
    let one_more : length xs + 1 ≡ length (xs ++ b ∷ []) = sym (length-append xs (b ∷ [])) in
    rw (small, set_middle xs old o b, one_more)
      (set_bytes-middle bs (xs ++ b ∷ []) old h.1 (omega (arith, k))
        ∙ ap (λ l. l ++ drop (length bs) old) (append_assoc xs (b ∷ []) bs))

set_payloads-concat :
    (ps : List (List ℕ)) (xs old : List ℕ)
    → All (All IsByte) ps
    → length old ≡ length (concat ps)
    → set_payloads (xs ++ old) (length xs) ps ≡ ok (xs ++ concat ps)
unfolding set_payloads
set_payloads-concat [] xs [] h e = refl
set_payloads-concat [] xs (o ∷ old) h e = absurd (omega (arith, e))
set_payloads-concat (p ∷ ps) xs old h e =
    let room : length p ≤ length old = omega (arith, e, length-append p (concat ps)) in
    let fits : leb (length xs + length p) (length (xs ++ old)) ≡ true =
      le→leb _ _ (omega (arith, room, length-append xs old)) in
    let end : length xs + length p ≡ length (xs ++ p) = sym (length-append xs p) in
    rw (fits, set_bytes-middle p xs old h.0 room, end)
      (set_payloads-concat ps (xs ++ p) (drop (length p) old) h.1
          (omega (arith, e, length-append p (concat ps), length-drop (length p) old))
        ∙ ap ok (append_assoc xs p (concat ps)))

-- `take` returns the payloads, one after the other, and leaves none.
pub take_all-concat :
    (ps : List (List ℕ))
    → All (All IsByte) ps
    → take_all (record { payloads = ps }) ≡ ok (concat ps, new_accumulator)
unfolding take_all
take_all-concat ps h =
    rw
      (set_payloads-concat ps [] (replicate (total_length 0 ps) 0) h (
        length-replicate (total_length 0 ps) 0
        ∙ total_length-length 0 ps
        ∙ zero-add (length (concat ps))))
      refl
