-- ===== src/Tests.antt =====
-- Sample objects, and the theorems of the other modules applied to them.
mod Sample
mod Buffers
mod Sessions
mod Pool
mod Wire
mod Threads
mod Joined
mod Chat
mod Packets
mod Talk
mod Lobby
mod Server
mod Logins
mod Relogins
mod Early
