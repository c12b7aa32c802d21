-- ===== src/Node/Id.antt =====
-- ts-core/src/net/node/nodeId.ts: NodeId. Its type is the number that the enumeration NodeIdType, or
-- an unchecked cast, gives.
use heterogeneous_network.Base.{
  ℕ, Bool, true, false, List, [], ◌∷◌, Option, some, ◌&&◌, Throws, ok, throw, ◌==◌, ◌>>=◌,
  if◌then◌else◌, length,
}
use heterogeneous_network.Serde.Traits.{Writer, thrown}
use heterogeneous_network.Serde.Serdeable.{Serdeable}
use heterogeneous_network.Serde.Combinators.{
  fixed_bytes_serdeable, throwing_transform_serdeable, variant_serdeable,
}

abbrev pub serial_type : ℕ
serial_type = 0x01

abbrev pub uhf_type : ℕ
uhf_type = 0x02

abbrev pub ipv4_type : ℕ
ipv4_type = 0x03

abbrev pub web_socket_type : ℕ
web_socket_type = 0x04

abbrev pub loopback_type : ℕ
loopback_type = 0x7f

abbrev pub broadcast_type : ℕ
broadcast_type = 0xff

-- `bodyBytesSizeOf`, with the `bodyBytesSize` of the class of each address.
unfoldable pub body_bytes_size_of : ℕ → Throws ℕ
body_bytes_size_of type =
    if type == broadcast_type
    then ok 0
    else if type == loopback_type
    then ok 0
    else if type == serial_type
    then ok 1
    else if type == uhf_type
    then ok 1
    else if type == ipv4_type
    then ok 6
    else if type == web_socket_type
    then ok 6
    else throw

pub record NodeId : Type 0 where
  pub type : ℕ
  pub body : List ℕ

-- The constructor.
unfoldable pub new_node_id : ℕ → List ℕ → Throws NodeId
unfolding body_bytes_size_of
new_node_id type body =
    body_bytes_size_of type
    >>= (λ size. if length body == size then ok (record { type = type; body = body }) else throw)

unfoldable pub broadcast : Throws NodeId
unfolding new_node_id
broadcast = new_node_id broadcast_type []

unfoldable pub loopback : Throws NodeId
unfolding new_node_id
loopback = new_node_id loopback_type []

unfoldable pub is_broadcast : NodeId → Bool
is_broadcast id = id.type == broadcast_type

unfoldable pub is_loopback : NodeId → Bool
is_loopback id = id.type == loopback_type

-- `this.#body.every((byte, index) => byte === other.#body[index])`
unfoldable pub every_byte : List ℕ → List ℕ → Bool
every_byte [] other = true
every_byte (byte ∷ body) [] = false
every_byte (byte ∷ body) (b ∷ other) = (byte == b) && every_byte body other

unfoldable pub equals : NodeId → NodeId → Bool
unfolding every_byte
equals id other = (id.type == other.type) && every_byte id.body other.body

module _ {W : Type 0} (w : Writer W) where
  -- What the serdeable of an id makes of the size of its body. Where `bodyBytesSizeOf` throws, so
  -- do the serializer and the deserializer.
  unfoldable pub body_serdeable : ℕ → Throws ℕ → Serdeable W NodeId
  unfolding new_node_id
  body_serdeable type throw = record { serializer = λ v. throw; deserializer = λ r. thrown }
  body_serdeable type (ok size) =
      throwing_transform_serdeable (fixed_bytes_serdeable w size) (new_node_id type) (λ id. id.body)

  unfoldable pub id_serdeable : ℕ → Option (Serdeable W NodeId)
  unfolding body_bytes_size_of body_serdeable
  id_serdeable type = some (body_serdeable type (body_bytes_size_of type))

  unfoldable pub node_id_serdeable : Serdeable W NodeId
  unfolding id_serdeable
  node_id_serdeable = variant_serdeable w (λ id. id.type) id_serdeable
