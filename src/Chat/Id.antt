-- ===== src/Chat/Id.antt =====
-- The identifiers of tcp_ip_programming/mini_project/single_chatting/source/server.c: `createID`,
-- `storeID` and `clearID`.
pub mod Create
pub mod Table
use linux_programming_exampl.Prelude.{
  ℕ, zero, suc, ◌+◌, ◌%◌, ℤ, pos, Bool, true, false, ltb, List, [], ◌∷◌, ◌++◌, if◌then◌else◌, map,
  take, drop, replicate,
}
use linux_programming_exampl.Program.{
  Prog, int, text, printf, pure, stuck, ◌>>=◌, ◌>>◌, print, sys, act,
}
use linux_programming_exampl.CMemory.{c_str, overwrite, memcpy}
use linux_programming_exampl.Chat.Kernel.{ChatOs, success, fail, chatting_room_num}

-- The character that `sprintf` stores for the number of a round.
unfoldable pub id_char : ℕ → ℕ
id_char rnd_val =
    if ltb rnd_val 10 then rnd_val + b'0' else if ltb 35 rnd_val then rnd_val + 61 else rnd_val + 55

module _ (K : ChatOs) where
  -- The loop, with `num` rounds left: each `sprintf` stores a character and a zero byte.
  pub create_loop : ℕ → ℕ → List ℕ → Prog K.tcp.State (List ℕ)
  create_loop zero i buf = pure buf
  create_loop (suc num) i buf = do
    r ← sys K.rand
    create_loop num (i + 1) (overwrite buf i (id_char (r % 26) ∷ 0 ∷ []))

  -- The result and the buffer. Behind the loop `i` is `num`.
  pub create_id : List ℕ → ℕ → Prog K.tcp.State (ℤ × List ℕ)
  create_id buf num = do
    act K.srand
    buf' ← create_loop num 0 buf
    if ltb num num then pure (fail, buf') else (do
      print (printf "[SERVER] - [createID] : randomID - %s\n" (text (c_str buf') ∷ []))
      pure (success, buf'))

  -- `id` is the memory from the address of the structure on; `sizeof(buf)` is the size of a
  -- pointer. The copy is made first; nothing before the end looks at it.
  -- `fclose(NULL)` is a fault.
  pub store_id : List ℕ → List ℕ → ℕ → Prog K.tcp.State (List ℕ)
  store_id id buf count = do
    opened ← sys K.fopen_append
    elim opened [
      | false ↦ do print (printf "[SERVER] : file fopen() error\n" []); stuck
      | true ↦ do
        pid ← sys (λ s. (K.getpid s, s))
        act (K.fprintf (printf "%d %s %d\n" (int (pos count) ∷ text (c_str buf) ∷ int pid ∷ [])))
        act K.fclose
        pure (memcpy id buf 8)
    ]

  -- The memory of one structure: `id_value` is at 0, `pid` at 4, `fds` at 8, `next` at 16, `before` at
  -- 24.
  pub clear_entry : List ℕ → List ℕ
  clear_entry m =
      overwrite (overwrite (overwrite m 0 (0 ∷ [])) 16 (replicate 8 0)) 24 (replicate 8 0)

  pub clear_id : List (List ℕ) → Prog K.tcp.State (List (List ℕ))
  clear_id id = do
    opened ← sys K.fopen_write
    if opened then act K.system_rm else print (printf "[SERVER] : file fopen() error\n" [])
    pure (map clear_entry (take chatting_room_num id) ++ drop chatting_room_num id)
