-- ===== src/Tcp/Ls.antt =====
-- tcp_ip_programming/just_study/3.ls: a server that sends the names in its directory, and its client.
pub mod Service
use linux_programming_exampl.Prelude.{
  ℕ, ◌-◌, ℤ, pos, minus_one, is_minus_one, Bool, true, false, Option, none, some, List, [], ◌∷◌,
  ◌++◌, if◌then◌else◌, length, ◌==◌,
}
use linux_programming_exampl.Program.{
  Prog, World, Status, running, returned, text, printf, pure, ◌>>=◌, ◌>>◌, print, sys,
}
use linux_programming_exampl.CMemory.{codes, c_str, strcmp_eq, strlen, strcpy, overwrite}
use linux_programming_exampl.Tcp.Kernel.{TcpOs, bufsiz}
use linux_programming_exampl.Tcp.Basic.{port}
use linux_programming_exampl.Tcp.Loop.{accept_loop}

abbrev pub err_1 : List ℕ
err_1 = codes "Directory error" ++ (0 ∷ [])

module _ (K : TcpOs) where
  -- The loop over the entries, which are an inode and a name with its zero byte.
  pub send_names : ℤ → List (ℕ × List ℕ) → Prog K.State (Unit {0})
  send_names c_socket [] = pure tt
  send_names c_socket ((d_ino, d_name) ∷ rest) = elim (d_ino == 0) [
    | true ↦ send_names c_socket rest
    | false ↦ do
      sys (K.write c_socket d_name (strlen d_name))
      sys (K.write c_socket (codes " ") 1)
      send_names c_socket rest
  ]

  -- The body of the loop behind `accept`; nothing is read into the static `r_buffer`.
  -- `readdir` stands for the calls of `opendir`, `readdir` until it gives NULL, and `closedir`.
  pub serve : List ℕ → ℤ → Prog K.State (List ℕ)
  serve r_buffer c_socket =
      if strcmp_eq r_buffer (codes "ls") then (do sys (K.close c_socket); pure r_buffer) else (do
        dp ← sys K.readdir
        elim dp [
          | none ↦ do
            sys (K.write c_socket err_1 (strlen err_1))
            sys (K.close c_socket)
            pure r_buffer
          | some entries ↦ do send_names c_socket entries; sys (K.close c_socket); pure r_buffer
        ])

  pub server_main : List ℕ → ℕ → Prog K.State Status
  server_main r_buffer rounds = do
    s_socket ← sys K.socket
    bound ← sys (K.bind s_socket port)
    if is_minus_one bound
        then (do print (printf "Cannot Bind\n" []); pure (returned minus_one))
        else (do
          listening ← sys (K.listen s_socket 5)
          if is_minus_one listening
              then (do print (printf "Cannot Listen\n" []); pure (returned minus_one))
              else accept_loop K serve s_socket rounds r_buffer)

  -- `word` and `rcv_buffer` are what the arrays hold.
  pub client_main : List ℕ → List ℕ → Prog K.State ℤ
  client_main word rcv_buffer = do
    c_socket ← sys K.socket
    connected ← sys (K.connect c_socket (codes "127.0.0.1") port)
    if is_minus_one connected
        then (do print (printf "Cannot Connect\n" []); sys (K.close c_socket); pure minus_one)
        else (do
          typed ← sys K.scanf
          print (printf "send Data: %s\n" (text (c_str (strcpy word typed)) ∷ []))
          sys (K.write c_socket (strcpy word typed) bufsiz)
          n ← sys (K.read c_socket (bufsiz - 1))
          elim n [
            | none ↦ pure minus_one
            | some bytes ↦ do
              print (printf "receive Data: %s\n" (text (c_str (overwrite rcv_buffer 0 bytes)) ∷ []))
              sys (K.close c_socket)
              pure (pos 0)
          ])
