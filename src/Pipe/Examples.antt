-- ===== src/Pipe/Examples.antt =====
-- tcp_ip_programming/just_study/15.pipeline_test/one_way.c, 4.socketpair/socketpair_ex.c and
-- 4.socketpair/socketpair_fork.c
pub mod Runs
use linux_programming_exampl.Prelude.{ℕ, ℤ, pos, List, [], ◌∷◌, ◌++◌, length}
use linux_programming_exampl.Program.{int, text, printf}
use linux_programming_exampl.CMemory.{codes, c_str, overwrite}
use linux_programming_exampl.Tcp.Kernel.{bufsiz}
use linux_programming_exampl.Pipe.Interactive.{str1, buf_size}
use linux_programming_exampl.Pipe.Process.{
  Process, write, read, print, close, exit, to_parent, to_child, Pair, pair, channels, local,
}

-- one_way.c. `buf` is what the array of the process holds, here and below.
pub one_way_child : Process
one_way_child = write to_parent str1 (exit (pos 0))

pub one_way_parent : List ℕ → Process
one_way_parent buf =
    read to_parent buf_size
      (λ bytes. print (printf "%s\n" (text (c_str (overwrite buf 0 bytes)) ∷ [])) (exit (pos 0)))

pub one_way_main : List ℕ → Pair
one_way_main buf = pair (channels [] []) (local (one_way_parent buf) []) (local one_way_child [])

-- socketpair_ex.c: one process has both ends, and what it writes to `sd[0]` it reads from `sd[1]`.
abbrev pub data_ex : List ℕ
data_ex = codes "This is from sd[0]"

pub socketpair_ex : List ℕ → Process
socketpair_ex buf = write to_child data_ex (
    print (printf "[send]: %s\n" (text data_ex ∷ [])) (
      read to_child bufsiz (λ bytes.
        print
          (printf "[receive]: %s\n"
            (text (c_str (overwrite (overwrite buf 0 bytes) (length bytes) (0 ∷ []))) ∷ []))
          (close to_parent (close to_child (exit (pos 0)))))))

-- socketpair_fork.c, with the processes' own numbers.
abbrev pub data1 : List ℕ
data1 = codes "From Parent" ++ (0 ∷ [])

abbrev pub data2 : List ℕ
data2 = codes "From Child" ++ (0 ∷ [])

pub fork_parent : ℤ → List ℕ → Process
fork_parent pid buf = close to_child (
    read to_parent bufsiz (λ bytes.
      print (printf "[parent %d]: %s\n" (int pid ∷ text (c_str (overwrite buf 0 bytes)) ∷ []))
        (write to_child data1 (close to_parent (exit (pos 0))))))

pub fork_child : ℤ → List ℕ → Process
fork_child pid buf = close to_parent (
    write to_parent data2 (
      read to_child bufsiz (λ bytes.
        print (printf "[Child: %d]: %s\n" (int pid ∷ text (c_str (overwrite buf 0 bytes)) ∷ []))
          (close to_child (exit (pos 0))))))

pub fork_main : ℤ → ℤ → List ℕ → List ℕ → Pair
fork_main parent_pid child_pid parent_buf child_buf =
    pair (channels [] []) (local (fork_parent parent_pid parent_buf) [])
      (local (fork_child child_pid child_buf) [])
