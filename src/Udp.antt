-- ===== src/Udp.antt =====
-- tcp_ip_programming/just_study, the programs over UDP: 9.echo_service_udp and 10.broadcasting_udp.
pub mod Kernel
pub mod EchoServer
pub mod EchoClient
pub mod Broadcast
mod Tests
