-- ===== src/Socket/Usage.antt =====
-- `main` of socket_example/main.c on a command line that it does not accept.
use linux_programming_exampl.Prelude.{
  ℕ, ◌≤◌, ◌<◌, ◌≡◌, minus_one, true, false, some, List, [], ◌∷◌, ◌++◌, append_assoc, arith, length,
  get_or, lt→ltb, le→ltb,
}
use linux_programming_exampl.Program.{World, Output, text, printf}
use linux_programming_exampl.CMemory.{codes, strcmp_eq}
use linux_programming_exampl.Socket.{
  print_help, setting_sock_type, server_main, client_main, main_err, main,
}
use linux_programming_exampl.Socket.Kernel.{SocketOs}

abbrev arg : List (List ℕ) → ℕ → List ℕ
arg argv i = get_or argv i []

-- No type of socket is called so.
abbrev pub IsWrongType : List ℕ → Type 0
IsWrongType type =
    (strcmp_eq type (codes "stream") ≡ false) × (strcmp_eq type (codes "datagram") ≡ false)

-- The command lines that are not of the form `(s|c Message) (stream|datagram) (filepath)`.
pub data Rejected (argv : List (List ℕ)) : Type 0 where
  too_few : length argv < 4 → Rejected argv
  no_role :
      4 ≤ length argv
      → strcmp_eq (arg argv 1) (codes "s") ≡ false
      → strcmp_eq (arg argv 1) (codes "c") ≡ false
      → Rejected argv
  server_type :
      4 ≤ length argv
      → strcmp_eq (arg argv 1) (codes "s") ≡ true
      → IsWrongType (arg argv 2)
      → Rejected argv
  client_too_few :
      4 ≤ length argv
      → length argv < 5
      → strcmp_eq (arg argv 1) (codes "s") ≡ false
      → strcmp_eq (arg argv 1) (codes "c") ≡ true
      → Rejected argv
  client_type :
      5 ≤ length argv
      → strcmp_eq (arg argv 1) (codes "s") ≡ false
      → strcmp_eq (arg argv 1) (codes "c") ≡ true
      → IsWrongType (arg argv 3)
      → Rejected argv

abbrev pub usage : List (List ℕ) → Output
usage argv =
    printf "Usage: %s (s|c Message) (stream|datagram) (filepath)\n" (text (arg argv 0) ∷ [])

abbrev pub wrong_type : Output
wrong_type = printf "[ERROR] setting_sock_type - input wrong socket type\n " []

-- What is printed: a complaint about the type of socket, if that is the reason, and the usage.
abbrev pub complaint : {argv : List (List ℕ)} → Rejected argv → List Output
complaint {argv} (server_type _ _ _) = wrong_type ∷ usage argv ∷ []
complaint {argv} (client_type _ _ _ _) = wrong_type ∷ usage argv ∷ []
complaint {argv} _ = usage argv ∷ []

module _ (K : SocketOs) (fuel : ℕ) where
  -- On a command line of another form than the usage message gives, `main` makes no system call,
  -- prints the usage last, behind a complaint about the type of socket if that is wrong, and
  -- returns -1.
  pub main-Rejected :
      (argv : List (List ℕ)) (type : ℕ) (filepath : List ℕ) (w : World K.State) (r : Rejected argv)
      → main K fuel argv type filepath w
        ≡ some (minus_one, record { os = w.os; out = w.out ++ complaint r })
  unfolding main print_help setting_sock_type server_main client_main main_err wrong_type
  main-Rejected argv type filepath w (too_few few) = rw (lt→ltb (length argv) 4 few)
  main-Rejected argv type filepath w (no_role enough s c) = rw (le→ltb (length argv) 4 enough, s, c)
  main-Rejected argv type filepath w (server_type enough s t) =
      rw (le→ltb (length argv) 4 enough, s, t.0, t.1, append_assoc w.out)
  main-Rejected argv type filepath w (client_too_few enough few s c) =
      rw (le→ltb (length argv) 4 enough, s, c, lt→ltb (length argv) 5 few)
  main-Rejected argv type filepath w (client_type enough s c t) =
      let enough_4 : 4 ≤ length argv = omega arith in
      rw (
        le→ltb (length argv) 4 enough_4,
        s,
        c,
        le→ltb (length argv) 5 enough,
        t.0,
        t.1,
        append_assoc w.out,
      )
