-- ===== src/Chat/Server/Rooms.antt =====
-- The rooms that the chatting server gives to its peers.
use linux_programming_exampl.Prelude.{String, [], ◌∷◌}
use linux_programming_exampl.Program.{World, Output, text, printf, said}
use linux_programming_exampl.CMemory.{codes}
use linux_programming_exampl.Chat.Server.Hosts.{Hosts}

abbrev succeeded : String → Output
succeeded m = printf "[SERVER] - [SUCCESS] %s\n" (text (codes m) ∷ [])

-- The menu, printed.
abbrev menu_shown : {S : Type 0} → World S → World S
menu_shown w =
    let w1 = said w (printf "============================\n" []) in
    let w2 = said w1 (printf "1. Create chatting room\n" []) in
    let w3 = said w2 (printf "2. show chatting room list\n" []) in
    said (said w3 (printf "3. connection chatting room\n" [])) (printf " = Select: " [])
