-- ===== src/Serde.antt =====
-- ts-core/src/serde: serializers and deserializers, and the buffers that they write and read.
pub mod Traits
pub mod Buffer
pub mod Serdeable
pub mod Primitives
pub mod Combinators
pub mod Schema
