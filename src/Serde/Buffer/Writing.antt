-- ===== src/Serde/Buffer/Writing.antt =====
-- What a serializer writes, as bytes.
use heterogeneous_network.Base.{
  ℕ, suc, ◌+◌, ◌%◌, ◌≤◌, ◌<◌, ◌≡◌, refl, sym, ap, ◌∙◌, true, List, [], ◌∷◌, ◌++◌, arith, leb,
  le→leb, ==_refl, length, set, replicate, All, length-append, length-set, length-replicate,
}
use heterogeneous_network.Base.{ok as returned}
use mathlib.Core.List.{append_assoc}
use mathlib.Core.Path.{subst}
use native.Mathlib.Nat.{add-zero, zero-add}
use heterogeneous_network.Serde.Traits.{
  SerializeResult, ok, not_enough_space, ◌>>=◌, Writer, Serializer,
}
use heterogeneous_network.Serde.Buffer.{
  BufferWriter, buffer_writer, write_byte, write_bytes, set_bytes, bytes, serialize,
}

-- The bytes, written one by one.
unfoldable pub put_all : {W : Type 0} → Writer W → List ℕ → W → SerializeResult W
put_all w [] x = ok x
put_all w (b ∷ bs) x = w.write_byte b x >>= put_all w bs

-- A writer in a sound state writes a run of bytes as it writes them one by one.
pub record WriterLaws {W : Type 0} (w : Writer W) : Type 1 where
  pub IsSound : W → Type 0
  pub transparent : (bs : List ℕ) (x : W) → IsSound x → w.write_bytes bs x ≡ put_all w bs x
  pub sound : (b : ℕ) (x y : W) → IsSound x → w.write_byte b x ≡ ok y → IsSound y

-- The serializer announces the number of the bytes `bs`, and writes them.
abbrev pub Encodes : {W : Type 0} {w : Writer W} → WriterLaws w → Serializer W → List ℕ → Type 0
Encodes {W} {w} laws s bs =
    (s.serialized_length ≡ length bs) × ((x : W) → laws.IsSound x → s.serialize x ≡ put_all w bs x)

abbrev IsSoundWriter : BufferWriter → Type 0
IsSoundWriter x = x.offset ≤ length x.buffer

pub write_bytes-put_all :
    (bs : List ℕ) (x : BufferWriter)
    → IsSoundWriter x
    → write_bytes bs x ≡ put_all buffer_writer bs x
unfolding put_all write_byte write_bytes set_bytes
write_bytes-put_all [] x h = ground arith
write_bytes-put_all (b ∷ bs) x h =
    let y : BufferWriter = record {
      buffer = set x.buffer x.offset (b % 256);
      offset = x.offset + 1;
    } in
    ground (arith, write_bytes-put_all bs y, length-set x.buffer x.offset (b % 256))

pub write_byte_sound :
    (b : ℕ) (x y : BufferWriter) → IsSoundWriter x → write_byte b x ≡ ok y → IsSoundWriter y
unfolding write_byte
write_byte_sound b x y h e = ground (arith, length-set x.buffer x.offset (b % 256))

abbrev pub buffer_laws : WriterLaws buffer_writer
buffer_laws = record {
  IsSound = IsSoundWriter;
  transparent = write_bytes-put_all;
  sound = write_byte_sound;
}

pub put_all-append :
    {W : Type 0} (w : Writer W) (xs bs : List ℕ) (x : W)
    → put_all w (xs ++ bs) x ≡ (put_all w xs x >>= put_all w bs)
unfolding put_all
put_all-append {W = W} w [] bs x = refl
put_all-append {W = W} w (a ∷ xs) bs x = go (w.write_byte a x) (λ y. put_all-append w xs bs y)
  where
    go :
        (r : SerializeResult W)
        → ((y : W) → put_all w (xs ++ bs) y ≡ (put_all w xs y >>= put_all w bs))
        → (r >>= put_all w (xs ++ bs)) ≡ (r >>= put_all w xs >>= put_all w bs)
    go (ok y) ih = ih y
    go not_enough_space ih = refl

-- Two serializers, one after the other, write both their bytes.
module _ {W : Type 0} {w : Writer W} (laws : WriterLaws w) where
  put_all-IsSound :
      (bs : List ℕ) (x y : W) → laws.IsSound x → put_all w bs x ≡ ok y → laws.IsSound y
  unfolding put_all
  put_all-IsSound [] x y h e = let p : x ≡ y = cc in subst laws.IsSound p h
  put_all-IsSound (b ∷ bs) x y h e = go (w.write_byte b x) refl e (λ z k. put_all-IsSound bs z y k)
    where
      go :
          (r : SerializeResult W)
          → w.write_byte b x ≡ r
          → (r >>= put_all w bs) ≡ ok y
          → ((z : W) → laws.IsSound z → put_all w bs z ≡ ok y → laws.IsSound y)
          → laws.IsSound y
      go (ok z) d e ih = ih z (laws.sound b x z h d) e
      go not_enough_space d e ih = cc e

  pub seq-Encodes :
      (s t : Serializer W) (xs bs : List ℕ)
      → Encodes laws s xs
      → Encodes laws t bs
      → (x : W) → laws.IsSound x
      → (s.serialize x >>= t.serialize) ≡ put_all w (xs ++ bs) x
  seq-Encodes s t xs bs h k x ok_x =
      rw (put_all-append w xs bs x, h.1 x ok_x) (go (put_all w xs x) refl)
    where
      go : (r : SerializeResult W) → put_all w xs x ≡ r → (r >>= t.serialize) ≡ (r >>= put_all w bs)
      go (ok y) e = k.1 y (put_all-IsSound xs x y ok_x e)
      go not_enough_space e = refl

abbrev pub IsByte : ℕ → Type 0
IsByte b = b < 256

pub set_middle :
    (xs ys : List ℕ) (x y : ℕ) → set (xs ++ x ∷ ys) (length xs) y ≡ (xs ++ y ∷ []) ++ ys
set_middle [] ys x y = refl
set_middle (z ∷ xs) ys x y = ap (λ l. z ∷ l) (set_middle xs ys x y)

fill :
    (bs xs old : List ℕ)
    → All IsByte bs
    → length old ≡ length bs
    → put_all buffer_writer bs (record { buffer = xs ++ old; offset = length xs })
      ≡ ok (record { buffer = xs ++ bs; offset = length xs + length bs })
unfolding put_all write_byte
fill [] xs [] h e = rw add-zero
fill [] xs (o ∷ old) h e = absurd (omega arith)
fill (b ∷ bs) xs [] h e = absurd (omega arith)
fill (b ∷ bs) xs (o ∷ old) h e =
    let fits : leb (length xs + 1) (length (xs ++ o ∷ old)) ≡ true =
      le→leb _ _ (omega (arith, length-append xs (o ∷ old))) in
    let small : b % 256 ≡ b = omega (arith, h.0) in
    let one_more : length xs + 1 ≡ length (xs ++ b ∷ []) = sym (length-append xs (b ∷ [])) in
    let moved : length (xs ++ b ∷ []) + length bs ≡ length xs + suc (length bs) =
      omega (arith, one_more) in
    rw (fits, small, set_middle xs old o b, one_more)
      (fill bs (xs ++ b ∷ []) old h.1 (omega arith) ∙ cc (append_assoc xs (b ∷ []) bs, moved))

-- `BufferWriter.serialize` returns exactly the bytes that a serializer encodes: the announced
-- length is the room they need, so neither the bounds check nor `unwrapBuffer` fails.
pub serialize-bytes :
    (s : Serializer BufferWriter) (bs : List ℕ)
    → Encodes buffer_laws s bs
    → All IsByte bs
    → serialize s ≡ bytes (returned bs)
unfolding serialize
serialize-bytes s bs h small =
    rw (h.0, h.1 (record { buffer = replicate (length bs) 0; offset = 0 }) (omega arith))
      (rw (fill bs [] (replicate (length bs) 0) small (length-replicate (length bs) 0))
        (rw (zero-add, ==_refl)))
