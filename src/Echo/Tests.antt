-- ===== src/Echo/Tests.antt =====
-- A connection that gives only errors, and the theorem on it.
use linux_programming_exampl.Prelude.{ℕ, ◌≡◌, refl, pos, minus_one, none, List, [], replicate}
use linux_programming_exampl.Program.{World}
use linux_programming_exampl.CMemory.{codes}
use linux_programming_exampl.Echo.{do_echo}
use linux_programming_exampl.Echo.Kernel.{EchoOs, bufsiz}
use linux_programming_exampl.Echo.Service.{do_echo_spins}

record Line : Type 0 where
  input : List ℕ
  output : List ℕ

abbrev broken : EchoOs
broken = record { State = Line; read = λ fd n s. (none, s); write = λ fd buf n s. (minus_one, s) }

abbrev world : World Line
world = record { os = record { input = codes "hi\n"; output = [] }; out = [] }

do_echo_spins_example : do_echo broken 100 (pos 5) (replicate bufsiz 7) world ≡ none
do_echo_spins_example = do_echo_spins broken 100 (pos 5) (replicate bufsiz 7) world (λ s. refl)
