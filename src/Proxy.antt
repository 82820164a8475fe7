-- ===== src/Proxy.antt =====
-- proxy: the gRPC server that offers a backend to other instances.
pub mod Messages
pub mod Convert
pub mod Service
pub mod Streams
pub mod Auth
pub mod Run
