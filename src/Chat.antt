-- ===== src/Chat.antt =====
-- final: the chat server.
pub mod Names
pub mod Rooms
pub mod Whisper
pub mod Transfer
pub mod Sessions
pub mod Client
