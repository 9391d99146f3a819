-- ===== src/FileMap/File.antt =====
-- The mapped file of mmap_example_2/main.c.
pub mod Monitor
pub mod Send
use linux_programming_exampl.Prelude.{
  ℕ, zero, suc, ◌+◌, ℤ, pos, minus_one, is_minus_one, Bool, true, false, Option, none, some, List,
  [], ◌∷◌, ltb, replicate, if◌then◌else◌,
}
use linux_programming_exampl.Program.{
  Status, running, returned, Prog, World, Output, int, text, printf, perror, pure, ◌>>=◌, ◌>>◌,
  print, sys, moved,
}
use linux_programming_exampl.CMemory.{c_str, memset, strncpy}
use linux_programming_exampl.Watch.{read, nap}
use linux_programming_exampl.FileMap.Kernel.{FileOs, Info, max_buf_len, sizeof_info, info_eq}

abbrev pub sizeof_pointer : ℕ
sizeof_pointer = 8

abbrev pub said_line : Info → Output
said_line d =
    printf "[monitor] client said [%s], Message size: %d\n"
      (text (c_str d.message) ∷ int d.number ∷ [])

module _ (K : FileOs) where
  -- Stores to the object at a pointer.
  abbrev pub store : ℤ → (Info → Info) → Prog K.State (Unit {0})
  store buf f w = elim (K.peek buf w.os) [
    | none ↦ none
    | some d ↦ elim (K.poke buf (f d) w.os) [ none ↦ none | some s ↦ some (tt, moved w s) ]
  ]

  -- The first rounds of `while(1)`, where `tmp_buf` is the local copy. The first branch of the code
  -- is for a pointer that is smaller than a pointer.
  unfoldable pub monitoring_loop : ℤ → ℕ → Info → Prog K.State (Unit {0})
  monitoring_loop buf zero tmp_buf = pure tt
  monitoring_loop buf (suc rounds) tmp_buf = do
    seen ← read (K.peek buf)
    elim (ltb sizeof_pointer sizeof_pointer) [
      | true ↦ do print (said_line seen); nap K.usleep; monitoring_loop buf rounds seen
      | false ↦ elim (info_eq tmp_buf seen) [
        | true ↦ do nap K.usleep; monitoring_loop buf rounds tmp_buf
        | false ↦ do print (said_line seen); nap K.usleep; monitoring_loop buf rounds seen
      ]
    ]

  -- The loop has no exit, so what stands behind it is never run.
  pub do_monitoring : List ℕ → ℕ → Prog K.State Status
  do_monitoring file_path rounds = do
    fd ← sys (K.open_file file_path true)
    if is_minus_one fd then (do print (perror "open()"); pure (returned minus_one)) else (do
      ret ← sys (K.ftruncate fd sizeof_info)
      if is_minus_one ret
          then (do print (perror "ftruncate()"); sys (K.close fd); pure (returned minus_one))
          else (do
            buf ← sys (K.mmap sizeof_info fd)
            if is_minus_one buf
                then (do print (perror "mmap()"); sys (K.close fd); pure (returned minus_one))
                else (do
                  store buf (λ d. record d { number = pos 0 })
                  store buf (λ d. record d { message = memset d.message 0 max_buf_len })
                  sys (K.close fd)
                  tmp_buf ← read (K.peek buf)
                  print (said_line tmp_buf)
                  monitoring_loop buf rounds tmp_buf
                  pure running)))

  pub do_send_data : List ℕ → List ℕ → Prog K.State ℤ
  do_send_data file_path message = do
    fd ← sys (K.open_file file_path false)
    if is_minus_one fd then (do print (perror "open()"); pure minus_one) else (do
      buf ← sys (K.mmap sizeof_info fd)
      if is_minus_one buf
          then (do sys (K.close fd); print (perror "mmap()"); pure minus_one)
          else (do
            store buf (λ d. record d { number = pos sizeof_pointer })
            store buf (λ d. record d { message = strncpy d.message message max_buf_len })
            sys (K.munmap buf sizeof_info)
            sys (K.close fd)
            pure (pos 0)))
