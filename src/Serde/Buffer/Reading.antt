-- ===== src/Serde/Buffer/Reading.antt =====
-- What a deserializer reads, as bytes.
use heterogeneous_network.Base.{
  ℕ, zero, suc, ◌+◌, ◌≤◌, ◌≡◌, sym, ap, ◌∙◌, List, [], ◌∷◌, ◌++◌, arith, le→leb, length, drop,
  get_or, length-append, length-drop, take-length, drop-length, drop_add,
}
use heterogeneous_network.Serde.Traits.{ok}
use heterogeneous_network.Serde.Buffer.{
  BufferReader, Read, read_byte, read_bytes, read_remaining_bytes,
}

-- The reader stands before the bytes `bs`.
abbrev pub StandsBefore : List ℕ → BufferReader → Type 0
StandsBefore bs r = (drop r.offset r.buffer ≡ bs) × (r.offset ≤ length r.buffer)

abbrev pub advance : ℕ → BufferReader → BufferReader
advance n r = record r { offset = r.offset + n }

-- The deserializer takes the bytes `bs` for the value `v` and leaves what follows them.
abbrev pub Decodes : {A : Type 0} → Read A → List ℕ → A → Type 0
Decodes d bs v =
    (rest : List ℕ) (r : BufferReader)
    → StandsBefore (bs ++ rest) r
    → d r ≡ ok (v, advance (length bs) r)

-- The same, where `bs` is all that is left.
abbrev pub DecodesLast : {A : Type 0} → Read A → List ℕ → A → Type 0
DecodesLast d bs v = (r : BufferReader) → StandsBefore bs r → d r ≡ ok (v, advance (length bs) r)

room :
    (xs ys : List ℕ) (r : BufferReader)
    → StandsBefore (xs ++ ys) r
    → r.offset + length xs ≤ length r.buffer
room xs ys r h = omega (
  arith,
  h.1,
  length-drop r.offset r.buffer,
  ap (λ (l : List ℕ). length l) h.0,
  length-append xs ys,
)

pub advance_stands :
    (xs ys : List ℕ) (r : BufferReader)
    → StandsBefore (xs ++ ys) r
    → StandsBefore ys (advance (length xs) r)
advance_stands xs ys r h = (
  sym (drop_add r.buffer r.offset (length xs))
      ∙ ap (λ l. drop (length xs) l) h.0
      ∙ drop-length xs ys,
  room xs ys r h,
)

pub read_bytes-Decodes : (bs : List ℕ) → Decodes (read_bytes (length bs)) bs bs
unfolding read_bytes
read_bytes-Decodes bs rest r h = rw (le→leb _ _ (room bs rest r h), h.0, take-length bs rest)

get_or-drop : (xs : List ℕ) (i x : ℕ) (rest : List ℕ) → drop i xs ≡ x ∷ rest → get_or xs i 0 ≡ x
get_or-drop [] zero x rest e = cc
get_or-drop [] (suc i) x rest e = cc
get_or-drop (y ∷ xs) zero x rest e = cc
get_or-drop (y ∷ xs) (suc i) x rest e = get_or-drop xs i x rest e

pub read_byte-Decodes : (b : ℕ) → Decodes read_byte (b ∷ []) b
unfolding read_byte
read_byte-Decodes b rest r h =
    rw (le→leb _ _ (room (b ∷ []) rest r h), get_or-drop r.buffer r.offset b rest h.0)

pub read_remaining_bytes-DecodesLast : (bs : List ℕ) → DecodesLast read_remaining_bytes bs bs
unfolding read_remaining_bytes
read_remaining_bytes-DecodesLast bs r h =
    let end : length r.buffer ≡ r.offset + length bs =
      omega (arith, h.1, length-drop r.offset r.buffer, ap (λ (l : List ℕ). length l) h.0) in
    rw (h.0, end)
