-- ===== src/Trusted/Pseudo/Header.antt =====
-- The bytes of a pseudo header, and what a ChecksumWriter makes of two serializers.
use heterogeneous_network.Base.{
  ℕ, ◌%◌, ◌<◌, ◌≡◌, refl, sym, ◌∙◌, List, [], ◌∷◌, ◌++◌, All, All-append, Throws, ok, throw, ◌>>=◌,
  arith, length, length-append, ◌≤◌,
}
use heterogeneous_network.Serde.Traits.{Serializer}
use heterogeneous_network.Serde.Buffer.Writing.{WriterLaws, Encodes, IsByte, put_all}
use heterogeneous_network.Serde.Serdeable.{Prints}
use heterogeneous_network.Serde.Primitives.{size8, uint_serdeable}
use heterogeneous_network.Serde.Primitives.Uint.{low_byte-Prints}
use heterogeneous_network.Serde.Combinators.Words.{word_bytes, word-IsByte}
use heterogeneous_network.Serde.Schema.{no_keys, key}
use heterogeneous_network.Serde.Schema.RoundTrip.{no_keys-PrintsKeys, key-PrintsKeys, object-Prints}
use heterogeneous_network.Node.Endpoint.{source_serdeable, destination_serdeable}
use heterogeneous_network.Node.Id.{NodeId, body_bytes_size_of}
use heterogeneous_network.Node.Cluster.{OptionalClusterId, id}
use heterogeneous_network.Node.Matching.{IsNodeId, IsSource, IsDestination, body-size}
use heterogeneous_network.Node.RoundTrip.{
  IsClusterId, IsPlain, end_bytes, end_bytes-IsByte, source-RoundTrips, destination-RoundTrips,
}
use heterogeneous_network.Tunnel.Frame.{port_serdeable, port-RoundTrips}
use heterogeneous_network.Trusted.Checksum.{ChecksumWriter, new_writer, write_byte, write_bytes}
use heterogeneous_network.Trusted.Pseudo.{
  LengthOmittedPseudoHeader, PseudoHeader, make, parts, header_schema, pseudo_header_serdeable,
  checksum_writer, fed,
}
use heterogeneous_network.Serde.Traits.{SerializeResult}

pub put_all-checksum :
    (bs : List ℕ) (m : Throws ChecksumWriter)
    → put_all checksum_writer bs m ≡ SerializeResult.ok (m >>= write_bytes bs)
unfolding put_all write_bytes
put_all-checksum [] (ok w) = refl
put_all-checksum [] throw = refl
put_all-checksum (b ∷ bs) (ok w) = put_all-checksum bs (write_byte b w)
put_all-checksum (b ∷ bs) throw = put_all-checksum bs throw

abbrev pub checksum_laws : WriterLaws checksum_writer
checksum_laws = record {
  IsSound = λ m. Unit;
  transparent = λ bs m s. sym (put_all-checksum bs m);
  sound = λ b x y s e. tt;
}

write_bytes-append :
    (xs ys : List ℕ) (w : ChecksumWriter)
    → write_bytes (xs ++ ys) w ≡ (write_bytes xs w >>= write_bytes ys)
unfolding write_bytes
write_bytes-append [] ys w = refl
write_bytes-append (x ∷ xs) ys w = go (write_byte x w) (write_bytes-append xs ys)
  where
    go :
        (m : Throws ChecksumWriter)
        → ((v : ChecksumWriter) → write_bytes (xs ++ ys) v ≡ (write_bytes xs v >>= write_bytes ys))
        → (m >>= write_bytes (xs ++ ys)) ≡ (m >>= write_bytes xs >>= write_bytes ys)
    go (ok v) ih = ih v
    go throw ih = refl

-- The ChecksumWriter is fed the bytes of the frame and then those of the header.
pub fed-write_bytes :
    (frame header : Serializer (Throws ChecksumWriter)) (xs ys : List ℕ)
    → Encodes checksum_laws frame xs
    → Encodes checksum_laws header ys
    → fed frame header ≡ write_bytes (xs ++ ys) new_writer
unfolding fed
fed-write_bytes frame header xs ys h k =
    rw (h.1 (ok new_writer) tt ∙ put_all-checksum xs (ok new_writer)) (
      rw (k.1 (write_bytes xs new_writer) tt ∙ put_all-checksum ys (write_bytes xs new_writer))
        (sym (write_bytes-append xs ys new_writer)))

-- Ends that constructors returned, and ports of 16 bits.
pub record IsEnds (e : LengthOmittedPseudoHeader) : Type 0 where
  pub source : IsSource e.source
  pub source_bytes : IsPlain e.source.node_id
  pub source_cluster : IsClusterId e.source.cluster_id
  pub destination : IsDestination e.destination
  pub destination_bytes : IsPlain e.destination.node_id
  pub destination_cluster : IsClusterId e.destination.cluster_id
  pub source_port : e.source_port < 65536
  pub destination_port_id : e.destination_port_id < 65536

-- The format of the header; of the length, one byte is left.
pub header_bytes : PseudoHeader → List ℕ
header_bytes h =
    end_bytes h.ends.source.node_id h.ends.source.cluster_id
    ++ (end_bytes h.ends.destination.node_id h.ends.destination.cluster_id
        ++ (word_bytes h.ends.source_port
            ++ (word_bytes h.ends.destination_port_id ++ (h.length % 256 ∷ []))))

pub header-IsByte : (h : PseudoHeader) → IsEnds h.ends → All IsByte (header_bytes h)
unfolding header_bytes
header-IsByte h k =
    let e = h.ends in
    All-append IsByte (end_bytes e.source.node_id e.source.cluster_id) _
      (end_bytes-IsByte e.source.node_id e.source.cluster_id k.source.0 k.source_bytes
        k.source_cluster)
      (All-append IsByte (end_bytes e.destination.node_id e.destination.cluster_id) _
        (end_bytes-IsByte e.destination.node_id e.destination.cluster_id k.destination
          k.destination_bytes k.destination_cluster)
        (All-append IsByte (word_bytes e.source_port)
          (word_bytes e.destination_port_id ++ (h.length % 256 ∷ []))
          (word-IsByte e.source_port k.source_port)
          (All-append IsByte (word_bytes e.destination_port_id) (h.length % 256 ∷ [])
            (word-IsByte e.destination_port_id k.destination_port_id) (omega arith, tt))))

pub header-Prints :
    (h : PseudoHeader)
    → IsEnds h.ends
    → h.length < 65536
    → Prints checksum_laws (pseudo_header_serdeable checksum_writer) h (header_bytes h)
unfolding pseudo_header_serdeable header_bytes
header-Prints h k small =
    let laws = checksum_laws in
    let w = checksum_writer in
    let e = h.ends in
    let byte = uint_serdeable w size8 in
    let port = port_serdeable w in
    let destinations = destination_serdeable w in
    object-Prints laws (header_schema w) make parts h (header_bytes h) (
      key-PrintsKeys laws (source_serdeable w)
        (key destinations (key port (key port (key byte no_keys)))) e.source _ _ _
        (source-RoundTrips laws e.source k.source k.source_cluster).0
        (key-PrintsKeys laws destinations (key port (key port (key byte no_keys))) e.destination _ _
          _ (destination-RoundTrips laws e.destination k.destination k.destination_cluster).0
          (key-PrintsKeys laws port (key port (key byte no_keys)) e.source_port _ _ _
            (port-RoundTrips laws e.source_port k.source_port).0
            (key-PrintsKeys laws port (key byte no_keys) e.destination_port_id _ _ _
              (port-RoundTrips laws e.destination_port_id k.destination_port_id).0
              (key-PrintsKeys laws byte no_keys h.length tt _ []
                (low_byte-Prints laws h.length small) (no_keys-PrintsKeys laws))))))

-- A header is at most 22 bytes long.
end_bytes-length : (n : NodeId) (c : OptionalClusterId) → IsNodeId n → length (end_bytes n c) ≤ 8
unfolding body_bytes_size_of
end_bytes-length n c h =
    let e = body-size n h in
    let size : length n.body ≤ 6 = ground arith in
    omega (arith, size, length-append n.body (id c ∷ []))

pub header_bytes-length : (h : PseudoHeader) → IsEnds h.ends → length (header_bytes h) ≤ 22
unfolding header_bytes
header_bytes-length h k =
    let e = h.ends in
    let rest =
      word_bytes e.source_port ++ (word_bytes e.destination_port_id ++ (h.length % 256 ∷ [])) in
    let to = end_bytes e.destination.node_id e.destination.cluster_id in
    omega (
      arith,
      end_bytes-length e.source.node_id e.source.cluster_id k.source.0,
      end_bytes-length e.destination.node_id e.destination.cluster_id k.destination,
      length-append (end_bytes e.source.node_id e.source.cluster_id) (to ++ rest),
      length-append to rest,
    )
