-- ===== src/Link/RoundTrip.antt =====
-- The bytes of addresses, which are those of the node ids that are made from them.
use heterogeneous_network.Base.{
  ℕ, ◌<◌, ◌≡◌, refl, sym, ◌∙◌, List, [], ◌∷◌, ◌++◌, ◌%◌, some, ok, arith, length, length-append,
  All,
}
use native.Mathlib.Nat.{add-zero}
use heterogeneous_network.Serde.Traits.{Writer}
use heterogeneous_network.Serde.Buffer.{buffer_writer}
use heterogeneous_network.Serde.Buffer.Writing.{
  put_all, WriterLaws, IsByte, buffer_laws, serialize-bytes,
}
use heterogeneous_network.Serde.Serdeable.{RoundTrips}
use heterogeneous_network.Serde.Primitives.{size8, size16, uint_serdeable, uint_serializer}
use heterogeneous_network.Serde.Primitives.Uint.{uint8-RoundTrips, uint16-RoundTrips}
use heterogeneous_network.Serde.Combinators.{
  fixed_bytes_serdeable, pair_serdeable, constant_serdeable, empty_serializer,
}
use heterogeneous_network.Serde.Combinators.Words.{word_bytes, word-IsByte, fixed_bytes-RoundTrips}
use heterogeneous_network.Serde.Combinators.Sequence.{
  pair-RoundTrips, transform-RoundTrips, variant-RoundTrips,
}
use heterogeneous_network.Node.Id.{NodeId, new_node_id, body_bytes_size_of, node_id_serdeable}
use heterogeneous_network.Node.Matching.{IsNodeId}
use heterogeneous_network.Node.RoundTrip.{node_id-RoundTrips}
use heterogeneous_network.Link.Address.{
  Address, IpV4Address, loopback, serial, uhf, udp, web_socket, address_type, address_body, ip_body,
  from_address, raw_ip_serdeable, raw_byte_serdeable, table_serdeable, address_serdeable,
}

-- Four octets, and a port of 16 bits.
abbrev pub IsIp : IpV4Address → Type 0
IsIp a = (length a.octets ≡ 4) × All IsByte a.octets × (a.port < 65536)

abbrev pub IsAddress : Address → Type 0
IsAddress loopback = Unit {0}
IsAddress (serial n) = n < 256
IsAddress (uhf n) = n < 256
IsAddress (udp a) = IsIp a
IsAddress (web_socket a) = IsIp a

abbrev pub body_of : Address → List ℕ
body_of loopback = []
body_of (serial n) = n ∷ []
body_of (uhf n) = n ∷ []
body_of (udp a) = a.octets ++ word_bytes a.port
body_of (web_socket a) = a.octets ++ word_bytes a.port

abbrev pub address_bytes : Address → List ℕ
address_bytes a = address_type a ∷ body_of a

-- The node of an address.
abbrev pub node_of : Address → NodeId
node_of a = record { type = address_type a; body = body_of a }

module _ {W : Type 0} {w : Writer W} (laws : WriterLaws w) where
  raw_ip-RoundTrips :
      (a : IpV4Address)
      → IsIp a
      → RoundTrips laws (raw_ip_serdeable w) a (a.octets ++ word_bytes a.port)
  unfolding raw_ip_serdeable
  raw_ip-RoundTrips a h =
      transform-RoundTrips laws
        (pair_serdeable (fixed_bytes_serdeable w 4) (uint_serdeable w size16))
        (λ p. some (record { octets = p.0; port = p.1 })) (λ a. (a.octets, a.port)) a _ refl
        (pair-RoundTrips laws (fixed_bytes_serdeable w 4) (uint_serdeable w size16) a.octets a.port
          a.octets (word_bytes a.port) (rw (sym h.0) (fixed_bytes-RoundTrips laws a.octets))
          (uint16-RoundTrips laws a.port h.2))

  raw_byte-RoundTrips : (n : ℕ) → n < 256 → RoundTrips laws (raw_byte_serdeable w) n (n ∷ [])
  unfolding raw_byte_serdeable
  raw_byte-RoundTrips n h =
      transform-RoundTrips laws (uint_serdeable w size8) (λ n. some n) (λ n. n) n (n ∷ []) refl
        (uint8-RoundTrips laws n h)

  loopback-RoundTrips : RoundTrips laws (constant_serdeable loopback) loopback []
  unfolding constant_serdeable empty_serializer put_all
  loopback-RoundTrips =
      ((empty_serializer, refl, (refl, λ x s. refl)), λ rest r k. rw add-zero refl)

  class-RoundTrips :
      (a : Address)
      → IsAddress a
      → RoundTrips laws (table_serdeable w (address_type a)) a (body_of a)
  unfolding table_serdeable
  class-RoundTrips loopback h = loopback-RoundTrips
  class-RoundTrips (serial n) h =
      transform-RoundTrips laws (raw_byte_serdeable w) _ _ (serial n) _ refl
        (raw_byte-RoundTrips n h)
  class-RoundTrips (uhf n) h =
      transform-RoundTrips laws (raw_byte_serdeable w) _ _ (uhf n) _ refl (raw_byte-RoundTrips n h)
  class-RoundTrips (udp a) h =
      transform-RoundTrips laws (raw_ip_serdeable w) _ _ (udp a) _ refl (raw_ip-RoundTrips a h)
  class-RoundTrips (web_socket a) h =
      transform-RoundTrips laws (raw_ip_serdeable w) _ _ (web_socket a) _ refl
        (raw_ip-RoundTrips a h)

  small_type : (a : Address) → address_type a < 256
  small_type loopback = omega arith
  small_type (serial n) = omega arith
  small_type (uhf n) = omega arith
  small_type (udp a) = omega arith
  small_type (web_socket a) = omega arith

  address-RoundTrips :
      (a : Address) → IsAddress a → RoundTrips laws (address_serdeable w) a (address_bytes a)
  unfolding address_serdeable
  address-RoundTrips a h =
      variant-RoundTrips laws address_type (λ index. some (table_serdeable w index))
        (table_serdeable w (address_type a)) a (body_of a) refl (small_type a)
        (class-RoundTrips a h)

-- The body of the id that is made from an address.
ip_body_lem : (a : IpV4Address) → IsIp a → ip_body a ≡ ok (a.octets ++ word_bytes a.port)
unfolding ip_body uint_serdeable
ip_body_lem a h =
    let print = (uint16-RoundTrips buffer_laws a.port h.2).0 in
    let own : uint_serializer buffer_writer size16 a.port ≡ print.0 = cc print.1 in
    rw (own, serialize-bytes print.0 (word_bytes a.port) print.2 (word-IsByte a.port h.2)) refl

address_body_lem : (a : Address) → IsAddress a → address_body a ≡ ok (body_of a)
unfolding address_body
address_body_lem loopback h = refl
address_body_lem (serial n) h = let e : n % 256 ≡ n = omega (arith, h) in rw e refl
address_body_lem (uhf n) h = let e : n % 256 ≡ n = omega (arith, h) in rw e refl
address_body_lem (udp a) h = ip_body_lem a h
address_body_lem (web_socket a) h = ip_body_lem a h

ip_size : (a : IpV4Address) → IsIp a → length (a.octets ++ word_bytes a.port) ≡ 6
ip_size a h = length-append a.octets (word_bytes a.port) ∙ rw h.0 refl

node_of-IsNodeId : (a : Address) → IsAddress a → IsNodeId (node_of a)
unfolding new_node_id body_bytes_size_of
node_of-IsNodeId loopback h = refl
node_of-IsNodeId (serial n) h = refl
node_of-IsNodeId (uhf n) h = refl
node_of-IsNodeId (udp a) h = rw (ip_size a h) refl
node_of-IsNodeId (web_socket a) h = rw (ip_size a h) refl

from_address_lem : (a : Address) → IsAddress a → from_address a ≡ ok (node_of a)
unfolding from_address
from_address_lem a h = rw (address_body_lem a h) (node_of-IsNodeId a h)

-- An address whose number is a byte, or whose octets are four bytes and whose port fits 16 bits, is
-- serialized to its type and its body and read back from them; `NodeId.fromAddress` returns the id
-- of the same type and body, which is serialized to and read from the same bytes.
pub address-node_id :
    {W : Type 0} {w : Writer W} (laws : WriterLaws w) (a : Address)
    → IsAddress a
    → RoundTrips laws (address_serdeable w) a (address_bytes a)
      × (from_address a ≡ ok (node_of a))
      × RoundTrips laws (node_id_serdeable w) (node_of a) (address_bytes a)
address-node_id laws a h = (
  address-RoundTrips laws a h,
  from_address_lem a h,
  node_id-RoundTrips laws (node_of a) (node_of-IsNodeId a h),
)
