-- ===== src/Pipe/Examples/Runs.antt =====
-- Runs of the programs of Examples.
use linux_programming_exampl.Prelude.{
  ℕ, zero, suc, ◌≡◌, refl, ◌∙◌, pos, ℤ, List, [], ◌∷◌, ◌++◌, arith, replicate, take,
}
use linux_programming_exampl.Program.{int, text, printf}
use linux_programming_exampl.CMemory.{codes, c_str, overwrite}
use linux_programming_exampl.CMemory.Laws.{NoZero, take-overwrite}
use linux_programming_exampl.CMemory.Buffers.{c_str-overwrite_string, c_str-overwrite_zero}
use linux_programming_exampl.Pipe.Process.{
  exit, pair, channels, local, Who, the_parent, the_child, turn, step, run,
}
use linux_programming_exampl.Pipe.Examples.{
  one_way_child, one_way_parent, one_way_main, fork_parent, fork_child, fork_main, socketpair_ex,
  data_ex,
}

-- The child of 4.socketpair/socketpair_fork.c runs until it waits, then the parent to its end, and
-- then the child.
abbrev turns : List Who
turns =
    the_child ∷ the_child ∷ the_child ∷ the_parent ∷ the_parent ∷ the_parent ∷ the_parent
    ∷ the_parent ∷ the_child ∷ the_child ∷ the_child ∷ []

-- Each of the two processes shows what the other one has sent, whatever its array held.
fork_main_shows :
    (p c : ℤ) (parent_buf child_buf : List ℕ)
    → run turns (fork_main p c parent_buf child_buf)
      ≡ pair
          (channels [] [])
          (local
            (exit (pos 0))
            (printf "[parent %d]: %s\n" (int p ∷ text (codes "From Child") ∷ []) ∷ []))
          (local
            (exit (pos 0))
            (printf "[Child: %d]: %s\n" (int c ∷ text (codes "From Parent") ∷ []) ∷ []))
unfolding run step turn fork_main fork_parent fork_child
fork_main_shows p c parent_buf child_buf =
    rw
      (
        c_str-overwrite_string parent_buf (codes "From Child") (grind arith),
        c_str-overwrite_string child_buf (codes "From Parent") (grind arith),
      )
      refl

-- The reader of 15.pipeline_test/one_way.c waits for the writer and shows what it wrote, with any
-- number of turns before the writer's.
one_way_waits :
    (buf : List ℕ) (n : ℕ)
    → run (replicate n the_parent ++ (the_child ∷ the_parent ∷ the_parent ∷ [])) (one_way_main buf)
      ≡ pair
          (channels [] [])
          (local (exit (pos 0)) (printf "%s\n" (text (codes "Who are you?") ∷ []) ∷ []))
          (local (exit (pos 0)) [])
unfolding run step turn one_way_main one_way_parent one_way_child
one_way_waits buf zero = rw (c_str-overwrite_string buf (codes "Who are you?") (grind arith)) refl
one_way_waits buf (suc n) = one_way_waits buf n

-- 4.socketpair/socketpair_ex.c shows what it sends and then the same as what it receives.
socketpair_ex_shows :
    (buf : List ℕ)
    → run
        (replicate 6 the_parent)
        (pair (channels [] []) (local (socketpair_ex buf) []) (local (exit (pos 0)) []))
      ≡ pair
          (channels [] [])
          (local (exit (pos 0)) (
            printf "[send]: %s\n" (text data_ex ∷ [])
            ∷ printf "[receive]: %s\n" (text data_ex ∷ [])
            ∷ []))
          (local (exit (pos 0)) [])
unfolding run step turn socketpair_ex
socketpair_ex_shows buf =
    let front : take 18 (overwrite buf 0 data_ex) ≡ data_ex = take-overwrite buf data_ex in
    let no_zero : NoZero data_ex = grind arith in
    let shown : c_str (overwrite (overwrite buf 0 data_ex) 18 (0 ∷ [])) ≡ data_ex =
      c_str-overwrite_zero (overwrite buf 0 data_ex) 18 (rw front no_zero) ∙ front in
    rw shown refl
