-- ===== src/Chat.antt =====
-- tcp_ip_programming/mini_project/single_chatting: a server that gives each peer the identifier of a
-- chatting room, and its client.
pub mod Kernel
pub mod Id
pub mod Server
pub mod Client
mod Tests
