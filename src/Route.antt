-- ===== src/Route.antt =====
-- route: the HTTP server with its websocket terminals.
pub mod Counter
pub mod Init
pub mod Title
pub mod Actions
pub mod Server
pub mod Exec
pub mod Logs
pub mod Run
pub mod Pages
pub mod Wrappers
pub mod Index
pub mod Slave
pub mod Origin
