-- ===== src/Tcp.antt =====
-- The TCP programs of tcp_ip_programming/just_study.
pub mod Kernel
pub mod Loop
pub mod Basic
pub mod Hello
pub mod Ls
pub mod EchoServer
pub mod EchoClient
mod Tests
