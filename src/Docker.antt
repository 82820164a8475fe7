-- ===== src/Docker.antt =====
-- container/docker: the Docker backend.
pub mod LogParser
pub mod Options
pub mod Client
mod Requests
pub mod Connect
mod Watch
mod Tty
