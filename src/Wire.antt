-- ===== src/Wire.antt =====
-- The wire format of src/serialization.c and the message types of src/types.c.
pub mod Host
pub mod Types
pub mod TlvType
pub mod Machine
pub mod Make
pub mod Sbuff
pub mod Serial
pub mod Dserial
pub mod RoundTrip
pub mod ShortData
pub mod Free
