-- ===== src/Pipe/Interactive.antt =====
-- tcp_ip_programming/just_study/15.pipeline_test/interactive.c
pub mod Schedules
use linux_programming_exampl.Prelude.{ℕ, ℤ, pos, List, [], ◌∷◌, ◌++◌}
use linux_programming_exampl.Program.{text, printf}
use linux_programming_exampl.CMemory.{codes, c_str, overwrite}
use linux_programming_exampl.Pipe.Process.{
  Process, write, read, print, sleep, exit, to_parent, to_child, Pair, pair, channels, local,
}

abbrev pub buf_size : ℕ
buf_size = 30

abbrev pub str1 : List ℕ
str1 = codes "Who are you?" ++ (0 ∷ [])

abbrev pub str2 : List ℕ
str2 = codes "Thank you for your message" ++ (0 ∷ [])

-- The two branches behind `fork`, where `buf` is what the array of the process holds. `fds1` is the
-- channel to the parent, and `fds2` the one to the child.
pub child : List ℕ → Process
child buf = write to_parent str1 (
    read to_child buf_size (λ bytes.
      print (printf "[Child] output: %s\n" (text (c_str (overwrite buf 0 bytes)) ∷ []))
        (exit (pos 0))))

pub parent : List ℕ → Process
parent buf = read to_parent buf_size (λ bytes.
    print (printf "[Parent] output: %s\n" (text (c_str (overwrite buf 0 bytes)) ∷ []))
      (write to_child str2 (sleep 3 (exit (pos 0)))))

-- `main` behind `pipe` and `fork`.
pub main : List ℕ → List ℕ → Pair
main parent_buf child_buf =
    pair (channels [] []) (local (parent parent_buf) []) (local (child child_buf) [])
