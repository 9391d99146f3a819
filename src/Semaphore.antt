-- ===== src/Semaphore.antt =====
-- semaphore_example/main.c: System V semaphores, and named and unnamed POSIX semaphores.
pub mod Usage
pub mod Sysv
pub mod Named
pub mod Unnamed
pub mod Main
