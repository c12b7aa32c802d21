-- ===== src/Serde/Combinators/Sequence.antt =====
-- Round trips of tuples, objects, transforms and variants, from those of their parts.
use heterogeneous_network.Base.{
  ℕ, ◌<◌, ◌≡◌, refl, ap, ◌∙◌, List, [], ◌∷◌, ◌++◌, Option, some, arith, length, length-append,
  Throws,
}
use heterogeneous_network.Base.{ok as returned}
use mathlib.Core.List.{append_assoc, append-nil}
use heterogeneous_network.Serde.Traits.{Writer, Serializer, ok, and_then}
use heterogeneous_network.Serde.Buffer.{BufferReader, Read}
use heterogeneous_network.Serde.Buffer.Writing.{WriterLaws, Encodes, seq-Encodes, put_all}
use heterogeneous_network.Serde.Buffer.Reading.{
  Decodes, DecodesLast, StandsBefore, advance, advance_stands,
}
use heterogeneous_network.Serde.Serdeable.{Serdeable, Prints, RoundTrips, RoundTripsLast}
use heterogeneous_network.Serde.Primitives.{size8, uint_serializer}
use heterogeneous_network.Serde.Primitives.Uint.{uint8-Encodes, uint8-Decodes}
use heterogeneous_network.Serde.Combinators.{
  tuple_length, tuple_serialize, tuple_serializer, pair_serdeable, triple_serdeable,
  transform_serdeable, throwing_transform_serdeable, variant_serdeable,
}

module _ {W : Type 0} {w : Writer W} (laws : WriterLaws w) where
  pub nil-Encodes : Encodes laws (tuple_serializer []) []
  unfolding tuple_serializer put_all
  nil-Encodes = (refl, λ x s. refl)

  pub cons-Encodes :
      (s : Serializer W) (ss : List (Serializer W)) (xs ys : List ℕ)
      → Encodes laws s xs
      → Encodes laws (tuple_serializer ss) ys
      → Encodes laws (tuple_serializer (s ∷ ss)) (xs ++ ys)
  unfolding tuple_serializer tuple_length tuple_serialize
  cons-Encodes s ss xs ys h k = (
    omega (arith, h.0, k.0, length-append xs ys),
    seq-Encodes laws s (tuple_serializer ss) xs ys h k,
  )

  pub two_encode :
      (s t : Serializer W) (xs ys : List ℕ)
      → Encodes laws s xs
      → Encodes laws t ys
      → Encodes laws (tuple_serializer (s ∷ t ∷ [])) (xs ++ ys)
  two_encode s t xs ys h k =
      let one : Encodes laws (tuple_serializer (t ∷ [])) ys =
        rw (append-nil ys) at (cons-Encodes t [] ys [] k nil-Encodes) in
      cons-Encodes s (t ∷ []) xs ys h one

far :
    (xs ys : List ℕ) (r : BufferReader)
    → advance (length ys) (advance (length xs) r) ≡ advance (length (xs ++ ys)) r
far xs ys r = ap (λ n. record r { offset = n }) (omega (arith, length-append xs ys))

-- Two deserializers, one after the other, take both their bytes.
module _ {A B : Type 0} (d : Read A) (f : A → Read B) (xs ys : List ℕ) (a : A) (b : B)
    (h : Decodes d xs a) where
  pub then-Decodes :
      Decodes (f a) ys b → Decodes (λ r. and_then (d r) (λ p. f p.0 p.1)) (xs ++ ys) b
  then-Decodes k rest r st =
      let st' : StandsBefore (xs ++ (ys ++ rest)) r = (st.0 ∙ append_assoc xs ys rest, st.1) in
      rw (h (ys ++ rest) r st') (
        k rest (advance (length xs) r) (advance_stands xs (ys ++ rest) r st')
        ∙ ap (λ s. ok (b, s)) (far xs ys r))

  pub then-DecodesLast :
      DecodesLast (f a) ys b → DecodesLast (λ r. and_then (d r) (λ p. f p.0 p.1)) (xs ++ ys) b
  then-DecodesLast k r st =
      rw (h ys r st)
        (k (advance (length xs) r) (advance_stands xs ys r st) ∙ ap (λ s. ok (b, s)) (far xs ys r))

module _ {A B : Type 0} (d : Read A) (g : A → B) (bs : List ℕ) (v : A) where
  pub map-Decodes : Decodes d bs v → Decodes (λ r. and_then (d r) (λ p. ok (g p.0, p.1))) bs (g v)
  map-Decodes h rest r st = rw (h rest r st) refl

  pub map-DecodesLast :
      DecodesLast d bs v → DecodesLast (λ r. and_then (d r) (λ p. ok (g p.0, p.1))) bs (g v)
  map-DecodesLast h r st = rw (h r st) refl

module _ {W : Type 0} {w : Writer W} (laws : WriterLaws w) where
  module _ {A B : Type 0} (s : Serdeable W A) (t : Serdeable W B) (a : A) (b : B)
      (xs ys : List ℕ) where
    pair-Prints :
        Prints laws s a xs → Prints laws t b ys → Prints laws (pair_serdeable s t) (a, b) (xs ++ ys)
    unfolding pair_serdeable
    pair-Prints h k = (
      tuple_serializer (h.0 ∷ k.0 ∷ []),
      rw (h.1, k.1) refl,
      two_encode laws h.0 k.0 xs ys h.2 k.2,
    )

    pub pair-RoundTrips :
        RoundTrips laws s a xs
        → RoundTrips laws t b ys
        → RoundTrips laws (pair_serdeable s t) (a, b) (xs ++ ys)
    unfolding pair_serdeable
    pair-RoundTrips h k = (
      pair-Prints h.0 k.0,
      then-Decodes s.deserializer (λ x r. and_then (t.deserializer r) (λ q. ok ((x, q.0), q.1))) xs
          ys a (a, b) h.1 (map-Decodes t.deserializer (λ y. (a, y)) ys b k.1),
    )

    pub pair-RoundTripsLast :
        RoundTrips laws s a xs
        → RoundTripsLast laws t b ys
        → RoundTripsLast laws (pair_serdeable s t) (a, b) (xs ++ ys)
    unfolding pair_serdeable
    pair-RoundTripsLast h k = (
      pair-Prints h.0 k.0,
      then-DecodesLast s.deserializer (λ x r. and_then (t.deserializer r) (λ q. ok ((x, q.0), q.1)))
          xs ys a (a, b) h.1 (map-DecodesLast t.deserializer (λ y. (a, y)) ys b k.1),
    )

  -- Three fields: the last one may take all that is left.
  module _ {A B C : Type 0} (s : Serdeable W A) (t : Serdeable W B) (u : Serdeable W C) (a : A)
      (b : B) (c : C) (xs ys zs : List ℕ) where
    pub triple-RoundTripsLast :
        RoundTrips laws s a xs
        → RoundTrips laws t b ys
        → RoundTripsLast laws u c zs
        → RoundTripsLast laws (triple_serdeable s t u) (a, b, c) (xs ++ (ys ++ zs))
    unfolding triple_serdeable
    triple-RoundTripsLast h k l = (
      (
        tuple_serializer (h.0.0 ∷ k.0.0 ∷ l.0.0 ∷ []),
        rw (h.0.1, k.0.1, l.0.1) refl,
        cons-Encodes laws h.0.0 (k.0.0 ∷ l.0.0 ∷ []) xs (ys ++ zs) h.0.2
            (two_encode laws k.0.0 l.0.0 ys zs k.0.2 l.0.2),
      ),
      then-DecodesLast s.deserializer
          (λ x r.
            and_then (t.deserializer r)
              (λ q. and_then (u.deserializer q.1) (λ z. ok ((x, q.0, z.0), z.1))))
          xs (ys ++ zs) a (a, b, c) h.1
          (then-DecodesLast t.deserializer
            (λ y r. and_then (u.deserializer r) (λ z. ok ((a, y, z.0), z.1))) ys zs b (a, b, c) k.1
            (map-DecodesLast u.deserializer (λ z. (a, b, z)) zs c l.1)),
    )

  module _ {A B : Type 0} (s : Serdeable W A) (f : A → Option B) (g : B → A) (v : B) (bs : List ℕ)
      (e : f (g v) ≡ some v) where
    pub transform-RoundTrips :
        RoundTrips laws s (g v) bs → RoundTrips laws (transform_serdeable s f g) v bs
    unfolding transform_serdeable
    transform-RoundTrips h = (h.0, λ rest r st. rw (h.1 rest r st) (rw e refl))

    pub transform-RoundTripsLast :
        RoundTripsLast laws s (g v) bs → RoundTripsLast laws (transform_serdeable s f g) v bs
    unfolding transform_serdeable
    transform-RoundTripsLast h = (h.0, λ r st. rw (h.1 r st) (rw e refl))

  module _ {A B : Type 0} (s : Serdeable W A) (f : A → Throws B) (g : B → A) (v : B) (bs : List ℕ)
      (e : f (g v) ≡ returned v) where
    pub throwing_transform-RoundTrips :
        RoundTrips laws s (g v) bs → RoundTrips laws (throwing_transform_serdeable s f g) v bs
    unfolding throwing_transform_serdeable
    throwing_transform-RoundTrips h = (h.0, λ rest r st. rw (h.1 rest r st) (rw e refl))

  module _ {A : Type 0} (id : A → ℕ) (find : ℕ → Option (Serdeable W A)) (s : Serdeable W A) (v : A)
      (bs : List ℕ) (e : find (id v) ≡ some s) (small : id v < 256) where
    pub variant-RoundTripsLast :
        RoundTripsLast laws s v bs → RoundTripsLast laws (variant_serdeable w id find) v (id v ∷ bs)
    unfolding variant_serdeable
    variant-RoundTripsLast h = (
      (
        tuple_serializer (uint_serializer w size8 (id v) ∷ h.0.0 ∷ []),
        rw e (rw h.0.1 refl),
        two_encode laws (uint_serializer w size8 (id v)) h.0.0 (id v ∷ []) bs
            (uint8-Encodes laws (id v) small) h.0.2,
      ),
      λ r st. rw (uint8-Decodes (id v) small bs r st) (
          rw e (
            h.1 (advance 1 r) (advance_stands (id v ∷ []) bs r st)
            ∙ ap (λ k. ok (v, k)) (far (id v ∷ []) bs r))),
    )

    pub variant-RoundTrips :
        RoundTrips laws s v bs → RoundTrips laws (variant_serdeable w id find) v (id v ∷ bs)
    unfolding variant_serdeable
    variant-RoundTrips h = (
      (
        tuple_serializer (uint_serializer w size8 (id v) ∷ h.0.0 ∷ []),
        rw e (rw h.0.1 refl),
        two_encode laws (uint_serializer w size8 (id v)) h.0.0 (id v ∷ []) bs
            (uint8-Encodes laws (id v) small) h.0.2,
      ),
      λ rest r st. rw (uint8-Decodes (id v) small (bs ++ rest) r st) (
          rw e (
            h.1 rest (advance 1 r) (advance_stands (id v ∷ []) (bs ++ rest) r st)
            ∙ ap (λ k. ok (v, k)) (far (id v ∷ []) bs r))),
    )
