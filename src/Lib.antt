-- ===== src/Lib.antt =====
-- The example programs of this repository on processes, threads, files, sockets and inter-process
-- communication under Linux, modelled in a cubical type theory.
--
-- Each program is one file with its functions, or a server and a client. The programs do not call each
-- other: they are clients of the operating system, and most consist of two processes that meet in a
-- kernel object (a socket, a pipe, a queue, a semaphore, a shared page). So each part has a record of
-- the calls that it makes, a function for each function of the program over any such record, and, where
-- a theorem needs it, a second record with what the manual pages promise of the calls, for the
-- descriptors, identifiers and pointers that the kernel gave. A test module gives a small kernel on
-- which the promises hold.
--
--   Prelude, Prelude/*            shared names: Boolean tests, lists over the native numbers, `int`
--   Program                       the monad of a process: World is the kernel's state and what the
--                                 process has printed; `none` is a call that does not return, or
--                                 a fault that ends the process
--   CMemory, CMemory/*            string.h, snprintf and atoi on lists of bytes; Laws, Buffers are
--                                 lemmas
--   Watch                         the loop of a process that polls a shared object for changes
--   Socket, Socket/*              socket_example/main.c
--   Threads, Threads/*            multi_thread_example/main.c: the threads as step relations over
--                                 their accesses to shared memory; Threads/Main is `main`
--   Semaphore/Usage, /Main        semaphore_example/main.c: print_help, the constants, main
--   Semaphore/Sysv, /Sysv/*       its System V semaphores (sysv_*)
--   Semaphore/Named, /Named/*     its named POSIX semaphore (posix_named_*)
--   Semaphore/Unnamed, ...        its unnamed POSIX semaphore (posix_unnamed_*)
--   SharedMemory, ...             shared_memory_example/main.c: Posix for posix_*, Sysv for sysv_*
--   FileMap, FileMap/*            mmap_example_2/main.c: File for do_monitoring and do_send_data,
--                                 Anon for the anonymous mode (do_anon)
--   StructFile, StructFile/*      mmap_example/main.c: Layout is the structure in memory
--   MessageQueue, ...             sysv_example/main.c
--   PosixQueue, ...               posix_mq_example/main.c
--   Echo, Echo/*                  tcp_ip_programming/just_study/12.fork_echo_service/
--                                 echo_fork_server.c: do_echo, and in Main its main
--   Tcp/Kernel, Tcp/Loop          the calls on TCP sockets, and the loop of a server over accept
--   Tcp/Basic, /Hello, /Ls        tcp_ip_programming/just_study/1.basic, 2.hello_world and 3.ls
--   Tcp/EchoServer, /EchoClient   tcp_ip_programming/just_study/8.echo_service_tcp
--   Udp, Udp/*                    tcp_ip_programming/just_study/9.echo_service_udp, and in Broadcast
--                                 10.broadcasting_udp
--   Talk, Talk/*                  tcp_ip_programming/just_study/14.talk_program/talk_server.c
--   MultiProcess, ...             multi_process_example/main.c, and fork_test.c of
--                                 tcp_ip_programming/just_study/11.fork_example
--   Pipe/Process, /Interactive,   parents and children over two channels, and their schedules:
--     /Examples                   tcp_ip_programming/just_study/4.socketpair and 15.pipeline_test
--   Pipe/Fork, Pipe/Fifo          pipe_example/main.c and namePipe_example/main.c
--   Net, Net/*                    tcp_ip_programming/just_study/5.getservent, 6.network_ordering, and
--                                 gethostbyname.c of 7.transport_address
--   Chat, Chat/*                  tcp_ip_programming/mini_project/single_chatting: Id for createID,
--                                 storeID and clearID, Server for main, Client for the client
--
-- Functions, structures and constants have the names of the code in lower case (in UpperCamelCase for
-- types). A `goto` is a call of a function for its label. A pointer argument that a function writes
-- to is an argument and a result. An uninitialised variable is an argument. A pointer into an object
-- is the list of the bytes from there to the end, or the number that the kernel gives for it, with
-- -1 for MAP_FAILED and 0 for NULL. The sizes are those of a 64-bit Linux: `sizeof` of a pointer
-- is 8.
--
-- Fuel: the loops over `send`, `recv` and `read` and the polling loops take a number of rounds, and
-- with no round left they do not return. The theorems on them say which number is enough: the number
-- of bytes for a transfer, and for a polling loop the rounds in which the awaited changes are seen.
-- A loop without an exit (the monitor of mmap_example_2, the servers, the client over UDP) is followed
-- for a number of rounds, such as the number of peers, and is then said to be running. Other loops
-- are recursions on the count that bounds them.
--
-- Interleaving: the threads of Threads interleave at each access to shared memory. In the polling
-- programs the other processes work while this one sleeps, and not between two of its accesses.
--
-- The servers over TCP serve one peer after the other: Tcp/Loop is their loop, over any service, with
-- what it means that a service answers a request by a function of it. The servers that fork are
-- followed in one process at a time. A parent and a child that are joined by pipes run in turns:
-- Pipe/Process has the schedules of the turns, and what a fair schedule is.
--
-- Not modelled: loadID of the chat server, which passes numbers where the library takes pointers,
-- and the body of the loop of its child, which is missing; the timer of time_example; and the small
-- examples of single library calls (signals, inet_aton.c, remote_addr.c), which have no logic of
-- their own. Signals, scheduling by priority, the overflow of the `int` counter in the unnamed
-- semaphore's object, and reads behind an array that has no zero byte are not modelled either.
pub mod Prelude
pub mod Program
pub mod CMemory
pub mod Socket
pub mod Threads
pub mod Semaphore
pub mod Watch
pub mod SharedMemory
pub mod FileMap
pub mod StructFile
pub mod MessageQueue
pub mod PosixQueue
pub mod Echo
pub mod Tcp
pub mod Udp
pub mod Talk
pub mod Pipe
pub mod Net
pub mod MultiProcess
pub mod Chat
