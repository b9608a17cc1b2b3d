-- ===== src/Github.antt =====
-- The GitHub client: github/client.py and github/auth.py.
pub mod Http
pub mod Tokens
pub mod Writes
pub mod Client
pub mod Reads
pub mod Contents
