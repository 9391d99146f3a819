-- ===== src/Net.antt =====
-- tcp_ip_programming/just_study, the programs on byte order, services and names: 5.getservent,
-- 6.network_ordering and gethostbyname.c of 7.transport_address.
pub mod Order
pub mod Names
