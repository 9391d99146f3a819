-- ===== src/Chat/Server.antt =====
-- tcp_ip_programming/mini_project/single_chatting/source/server.c: `debug_print`, `menu_print` and
-- `main` from the making of its socket on.
pub mod Hosts
pub mod Rooms
use linux_programming_exampl.Prelude.{
  ℕ, zero, suc, ◌+◌, ℤ, pos, negsuc, minus_one, is_minus_one, int_eq, Bool, true, false, Option,
  none, some, List, [], ◌∷◌, if◌then◌else◌,
}
use linux_programming_exampl.Program.{
  Prog, Status, running, returned, text, printf, pure, stuck, ◌>>=◌, ◌>>◌, print, sys, call,
}
use linux_programming_exampl.CMemory.{codes, strlen}
use linux_programming_exampl.Chat.Kernel.{ChatOs, success, fail, id_len}
use linux_programming_exampl.Chat.Id.{create_id, store_id}

abbrev pub server_port : ℕ
server_port = 9000

pub debug_print : {S : Type 0} → ℤ → List ℕ → List ℕ → Prog S (Unit {0})
debug_print status msg_fail msg_success =
    if int_eq status fail
    then print (printf "[SERVER] - [FAIL] %s\n" (text msg_fail ∷ []))
    else if int_eq status success
    then print (printf "[SERVER] - [SUCCESS] %s\n" (text msg_success ∷ []))
    else print (printf "[SERVER] - status value error...\n" [])

pub menu_print : {S : Type 0} → Prog S (Unit {0})
menu_print = do
  print (printf "============================\n" [])
  print (printf "1. Create chatting room\n" [])
  print (printf "2. show chatting room list\n" [])
  print (printf "3. connection chatting room\n" [])
  print (printf " = Select: " [])

-- The number in `menu` behind `scanf`, which leaves it when there is no number to read.
pub selected : ℤ → Option ℤ → ℤ
selected menu none = menu
selected menu (some m) = m

-- What the loop keeps: `menu`, `chatting_room_count`, `randomID` and the table `Chatting_room`.
pub record Locals : Type 0 where
  pub menu : ℤ
  pub chatting_room_count : ℕ
  pub random_id : List ℕ
  pub chatting_room : List ℕ

module _ (K : ChatOs) where
  -- The part of the parent behind `fork`.
  pub host_room : ℤ → Locals → Prog K.tcp.State Locals
  host_room c_socket l = do
    (status, random_id) ← create_id K l.random_id id_len
    debug_print status (codes "fail create random ID") (codes "success create random ID")
    if int_eq status success
        then (do
          sys (K.tcp.write c_socket random_id (strlen random_id))
          debug_print status (codes "fail send random ID") (codes "success send random ID")
          chatting_room ← store_id K l.chatting_room random_id (l.chatting_room_count + 1)
          sys (K.tcp.close c_socket)
          pure (record {
            menu = l.menu;
            chatting_room_count = l.chatting_room_count + 1;
            random_id = random_id;
            chatting_room = chatting_room;
          }))
        else (do sys (K.tcp.close c_socket); pure (record l { random_id = random_id }))

  -- `case 1`, or `none` when `main` returns FAIL. The loop of the child has no body in the source, and
  -- the child is not followed.
  pub create_room : ℤ → Locals → Prog K.tcp.State (Option Locals)
  create_room s_socket l = do
    c_socket ← call (K.tcp.accept s_socket)
    sys (K.pipe l.chatting_room_count)
    pid ← sys K.tcp.fork
    elim pid [
      | negsuc n ↦ do
        print (printf "[SERVER] - [ERROR] : echo server cannot fork()\n" [])
        pure none
      | pos zero ↦ stuck
      | pos (suc n) ↦ do l' ← host_room c_socket l; pure (some l')
    ]

  pub switch_menu : ℤ → Locals → Prog K.tcp.State (Option Locals)
  switch_menu s_socket l = if int_eq l.menu (pos 1) then create_room s_socket l else pure (some l)

  -- The loop, followed for `rounds` rounds.
  pub server_loop : ℤ → ℕ → Locals → Prog K.tcp.State Status
  server_loop s_socket zero l = pure running
  server_loop s_socket (suc rounds) l = do
    menu_print
    typed ← sys K.scanf
    done ← switch_menu s_socket (record l { menu = selected l.menu typed })
    elim done [ none ↦ pure (returned fail) | some l' ↦ server_loop s_socket rounds l' ]

  -- `listen` may fail without an end of the program.
  pub server_main : ℕ → Locals → Prog K.tcp.State Status
  server_main rounds l = do
    s_socket ← sys K.tcp.socket
    bound ← sys (K.tcp.bind s_socket server_port)
    if is_minus_one bound
        then (do print (printf "[SERVER] - [ERROR] : Fail bind\n" []); pure (returned minus_one))
        else (do
          listening ← sys (K.tcp.listen s_socket 5)
          if is_minus_one listening
              then print (printf "[SERVER] - [ERROR] : Fail listen\n" [])
              else pure tt
          server_loop s_socket rounds l)
