-- ===== src/Chat/Client.antt =====
-- tcp_ip_programming/mini_project/single_chatting/source/client.c
use linux_programming_exampl.Prelude.{
  ℕ, ℤ, pos, minus_one, is_minus_one, none, some, List, [], ◌∷◌, if◌then◌else◌,
}
use linux_programming_exampl.Program.{Prog, text, printf, pure, ◌>>=◌, ◌>>◌, print, sys}
use linux_programming_exampl.CMemory.{codes, c_str, overwrite}
use linux_programming_exampl.Tcp.Kernel.{TcpOs}
use linux_programming_exampl.Chat.Kernel.{id_len}
use linux_programming_exampl.Chat.Server.{server_port}

module _ (K : TcpOs) where
  -- `my_chatting_room_id` is the memory from the array on: eight bytes, and what lies behind them.
  pub client_main : List ℕ → Prog K.State ℤ
  client_main my_chatting_room_id = do
    c_socket ← sys K.socket
    connected ← sys (K.connect c_socket (codes "192.168.64.4") server_port)
    if is_minus_one connected
        then (do
          print (printf "[CLIENT] - [ERROR] : Fail Connect\n" [])
          sys (K.close c_socket)
          pure minus_one)
        else (do
          n ← sys (K.read c_socket id_len)
          elim n [
            | none ↦ do print (printf "[CLIETN] - [ERROR] : Empty rcvBuffer\n" []); pure minus_one
            | some bytes ↦ do
              print (
                  printf "[CLIENT] My Chatting Room ID: %s\n"
                    (text (c_str (overwrite my_chatting_room_id 0 bytes)) ∷ []))
              sys (K.close c_socket)
              pure (pos 0)
          ])
