-- ===== src/Link/Address.antt =====
-- ts-core/src/net/link/address: Address and its classes, and `NodeId.fromAddress` of
-- net/node/nodeId.ts. An address is one of the objects that its field `address` holds; the octets
-- and the number are those that a Uint8Array or the field keeps.
use heterogeneous_network.Base.{
  ℕ, Bool, true, false, List, [], ◌∷◌, ◌++◌, ◌%◌, some, ◌&&◌, Throws, ok, throw, ◌==◌, ◌>>=◌,
  if◌then◌else◌,
}
use heterogeneous_network.Serde.Traits.{Writer, thrown}
use heterogeneous_network.Serde.Buffer.{buffer_writer, Serialized, serialize, bytes, error}
use heterogeneous_network.Serde.Serdeable.{Serdeable}
use heterogeneous_network.Serde.Primitives.{size8, size16, uint_serdeable, uint_serializer}
use heterogeneous_network.Serde.Combinators.{
  fixed_bytes_serdeable, pair_serdeable, transform_serdeable, constant_serdeable, variant_serdeable,
}
use heterogeneous_network.Node.Id.{NodeId, new_node_id, every_byte}

pub record IpV4Address : Type 0 where
  pub octets : List ℕ
  pub port : ℕ

pub data Address : Type 0 where
  loopback : Address
  serial : ℕ → Address
  uhf : ℕ → Address
  udp : IpV4Address → Address
  web_socket : IpV4Address → Address

-- `Address.type`, as a number of the enumeration AddressType.
abbrev pub address_type : Address → ℕ
address_type loopback = 0x7f
address_type (serial n) = 0x01
address_type (uhf n) = 0x02
address_type (udp a) = 0x03
address_type (web_socket a) = 0x04

-- `Result.unwrap`
abbrev unwrap : Serialized → Throws (List ℕ)
unwrap (bytes b) = b
unwrap error = throw

-- `IpV4Address.body`
unfoldable pub ip_body : IpV4Address → Throws (List ℕ)
ip_body a =
    unwrap (serialize (uint_serializer buffer_writer size16 a.port))
    >>= (λ port. ok (a.octets ++ port))

-- `body` of each class: `new Uint8Array([address])` keeps the low 8 bits.
unfoldable pub address_body : Address → Throws (List ℕ)
unfolding ip_body
address_body loopback = ok []
address_body (serial n) = ok (n % 256 ∷ [])
address_body (uhf n) = ok (n % 256 ∷ [])
address_body (udp a) = ip_body a
address_body (web_socket a) = ip_body a

-- `NodeId.fromAddress`
unfoldable pub from_address : Address → Throws NodeId
unfolding address_body new_node_id
from_address a = address_body a >>= new_node_id (address_type a)

-- `IpV4Address.equals`
unfoldable pub equal_ips : IpV4Address → IpV4Address → Bool
unfolding every_byte
equal_ips a other = every_byte a.octets other.octets && (a.port == other.port)

-- `Address.equals`: the types first, then `equals` of their class.
unfoldable pub equal_addresses : Address → Address → Bool
unfolding equal_ips
equal_addresses loopback loopback = true
equal_addresses (serial n) (serial m) = n == m
equal_addresses (uhf n) (uhf m) = n == m
equal_addresses (udp a) (udp b) = equal_ips a b
equal_addresses (web_socket a) (web_socket b) = equal_ips a b
equal_addresses a b = false

-- The number, the IP address inside: those of another class are never asked for.
abbrev number_of : Address → ℕ
number_of (serial n) = n
number_of (uhf n) = n
number_of a = 0

abbrev ip_of : Address → IpV4Address
ip_of (udp a) = a
ip_of (web_socket a) = a
ip_of a = record { octets = []; port = 0 }

module _ {W : Type 0} (w : Writer W) where
  -- `IpV4Address.rawSserdeable`
  unfoldable pub raw_ip_serdeable : Serdeable W IpV4Address
  raw_ip_serdeable =
      transform_serdeable (pair_serdeable (fixed_bytes_serdeable w 4) (uint_serdeable w size16))
        (λ p. some (record { octets = p.0; port = p.1 })) (λ a. (a.octets, a.port))

  -- `SingleByteAddress.rawSerdeable`
  unfoldable pub raw_byte_serdeable : Serdeable W ℕ
  raw_byte_serdeable = transform_serdeable (uint_serdeable w size8) (λ n. some n) (λ n. n)

  abbrev pub byte_serdeable : (ℕ → Address) → Serdeable W Address
  byte_serdeable make = transform_serdeable raw_byte_serdeable (λ n. some (make n)) number_of

  abbrev pub ip_serdeable : (IpV4Address → Address) → Serdeable W Address
  ip_serdeable make = transform_serdeable raw_ip_serdeable (λ a. some (make a)) ip_of

  -- `Address.table[index].serdeable`, which throws where the table has no class.
  unfoldable pub table_serdeable : ℕ → Serdeable W Address
  unfolding raw_ip_serdeable raw_byte_serdeable
  table_serdeable index =
      if index == 0x7f
      then constant_serdeable loopback
      else if index == 0x01
      then byte_serdeable serial
      else if index == 0x02
      then byte_serdeable uhf
      else if index == 0x03
      then ip_serdeable udp
      else if index == 0x04
      then ip_serdeable web_socket
      else record { serializer = λ v. throw; deserializer = λ r. thrown }

  -- `Address.serdeable`
  unfoldable pub address_serdeable : Serdeable W Address
  unfolding table_serdeable
  address_serdeable = variant_serdeable w address_type (λ index. some (table_serdeable index))
