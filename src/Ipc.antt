-- ===== src/Ipc.antt =====
-- The connection between a client and a plugin process: python_binding/lsm/_transport.py and
-- python_binding/lsm/_pluginrunner.py.
pub mod Raised
pub mod Utf8
pub mod Transport
pub mod Messages
pub mod Runner
mod Tests
