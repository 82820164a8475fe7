-- ===== src/Util.antt =====
-- util: identifiers, paths and names from the environment.
pub mod Id
pub mod Env
