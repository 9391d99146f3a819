-- ===== src/Pipe.antt =====
-- The programs of a parent and a child that are joined by pipes: pipe_example/main.c, and
-- 15.pipeline_test and 4.socketpair of tcp_ip_programming/just_study.
pub mod Process
pub mod Interactive
pub mod Examples
pub mod Kernel
pub mod Fork
pub mod Fifo
mod Tests
