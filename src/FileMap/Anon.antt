-- ===== src/FileMap/Anon.antt =====
-- The anonymous mapping of mmap_example_2/main.c.
pub mod Parent
pub mod Child
use linux_programming_exampl.Prelude.{
  ℕ, zero, suc, ◌+◌, ◌-◌, ℤ, pos, minus_one, negsuc, is_minus_one, Bool, true, false, Option, none,
  some, List, [], ◌∷◌, ◌++◌, replicate, if◌then◌else◌, is_zero, is_negative,
}
use linux_programming_exampl.Program.{
  Prog, World, Output, int, text, printf, perror, pure, ◌>>=◌, ◌>>◌, print, sys, call, moved,
}
use linux_programming_exampl.CMemory.{codes, c_str, snprintf}
use linux_programming_exampl.Watch.{watch, nap}
use linux_programming_exampl.FileMap.Kernel.{AnonOs, Info, max_buf_len, sizeof_info, info_eq}

abbrev pub fork_num : ℕ
fork_num = 5

abbrev pub zero_info : Info
zero_info = record { number = pos 0; message = replicate max_buf_len 0 }

-- `"anonymous test %d"` for an index of one digit.
abbrev pub anonymous_test : ℕ → List ℕ
anonymous_test index = codes "anonymous test " ++ ((48 + index) ∷ [])

abbrev pub anon_line : Info → Output
anon_line d = printf "    * pid = %d, Message = %s\n" (int d.number ∷ text (c_str d.message) ∷ [])

abbrev pub terminate_line : ℕ → Output
terminate_line pid = printf "    [PID: %d] Terminate\n" (int (pos pid) ∷ [])

module _ (K : AnonOs) where
  -- Stores to the object at a pointer.
  abbrev pub store : ℤ → (Info → Info) → Prog K.State (Unit {0})
  store info f w = elim (K.peek info w.os) [
    | none ↦ none
    | some d ↦ elim (K.poke info (f d) w.os) [ none ↦ none | some s ↦ some (tt, moved w s) ]
  ]

  pub mmap_init : Prog K.State ℤ
  mmap_init = do
    info ← sys (K.mmap_anonymous sizeof_info)
    if is_minus_one info
        then (do print (perror "mmap()"); pure (pos 0))
        else (do store info (λ d. zero_info); pure info)

  pub anon_send_data : ℕ → ℤ → Prog K.State ℤ
  anon_send_data index info = do
    nap (K.sleep (index + 2))
    pid ← (λ w. some (K.getpid w.os, w))
    store info (λ d. record d { number = pid })
    store info (λ d. record d { message = snprintf d.message max_buf_len (anonymous_test index) })
    pure (pos 0)

  pub anon_monitor : ℕ → ℤ → Prog K.State ℤ
  anon_monitor rounds info = do
    watch (K.peek info) K.usleep info_eq anon_line fork_num rounds zero_info 0
    sys (K.munmap info sizeof_info)
    pure (pos 0)

  -- The last loop of the parent, with `left` children to wait for.
  unfoldable pub wait_loop : ℕ → Prog K.State ℤ
  wait_loop zero = pure (pos 0)
  wait_loop (suc left) = do
    pid ← call K.wait
    elim (is_minus_one pid) [
      | true ↦ do print (perror "wait()"); pure minus_one
      | false ↦ do print (printf "    [PID: %d] Terminate\n" (int pid ∷ [])); wait_loop left
    ]

  pub parent_end : ℕ → ℤ → Prog K.State ℤ
  parent_end rounds info = do
    anon_monitor rounds info
    print (printf "* END ANONYMOUS MODE\n" [])
    wait_loop fork_num

  -- The loop that makes the children, and what follows, with `left` children still to be made. The
  -- parent goes on when `fork` gives a process; a child, for which it gives 0, writes and returns.
  unfoldable pub fork_loop : ℕ → ℤ → ℕ → ℕ → Prog K.State ℤ
  unfolding parent_end
  fork_loop rounds info zero i = parent_end rounds info
  fork_loop rounds info (suc left) i = do
    pid ← sys K.fork
    elim (is_negative pid) [
      | true ↦ do print (perror "fork()"); pure minus_one
      | false ↦ elim (is_zero pid) [
        | true ↦ do anon_send_data i info; sys (K.munmap info sizeof_info); pure (pos 0)
        | false ↦ fork_loop rounds info left (i + 1)
      ]
    ]

  pub do_anon : ℕ → Prog K.State ℤ
  do_anon rounds = do
    print (printf "* START ANONYMOUS MODE \n" [])
    info ← mmap_init
    fork_loop rounds info fork_num 0
