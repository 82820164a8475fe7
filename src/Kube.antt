-- ===== src/Kube.antt =====
-- container/kube: the Kubernetes backend.
pub mod Client
mod Connect
pub mod Sizes
pub mod Exit
mod Tty
