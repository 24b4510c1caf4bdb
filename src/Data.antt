-- ===== src/Data.antt =====
-- The objects that the library passes between a client and a plugin (python_binding/lsm/_data.py).
pub mod Value
pub mod Initiators
pub mod Params
pub mod Classes
pub mod Codec
mod Tests
