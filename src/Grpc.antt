-- ===== src/Grpc.antt =====
-- container/grpc: the backend that forwards to other instances.
pub mod Client
pub mod Dialer
pub mod Connect
pub mod Pipe
pub mod Tty
