-- ===== src/SharedMemory/Sysv/Send.antt =====
-- The sender of shared_memory_example/main.c for a System V segment.
use linux_programming_exampl.Prelude.{
  ℕ, ◌+◌, ◌<◌, ◌≡◌, refl, ◌∙◌, ℤ, pos, is_minus_one, false, some, List, length,
}
use linux_programming_exampl.Program.{World, moved, ◌>>=◌}
use linux_programming_exampl.CMemory.{c_str}
use linux_programming_exampl.SharedMemory.Kernel.{
  ShmOs, Shares, Attaches, page_size, sizeof_message,
}
use linux_programming_exampl.SharedMemory.Monitor.{stores_ok}
use linux_programming_exampl.SharedMemory.Sysv.{sysv_init, sysv_finish, sys_send_message}
use linux_programming_exampl.SharedMemory.Sysv.Recv.{sysv_gen_info_ok}

module _ (K : ShmOs) (S : Shares K) (A : Attaches K S) where
  -- A message shorter than the page, sent through a segment that is to be had and attached, is the
  -- string in the segment when `sys_send_message` returns, which it does with 0. The size there is
  -- 8, and the segment is attached once more than after `sysv_init`: it is never detached.
  pub sys_send_message_stores :
      (m : List ℕ) (id : ℤ) (w w1 : World K.State)
      → length (c_str m) < page_size
      → sysv_init K w ≡ some (id, w1)
      → is_minus_one id ≡ false
      → is_minus_one (K.shmat id w1.os).0 ≡ false
      → (w' : World K.State) × (sys_send_message K m w ≡ some (pos 0, w'))
        × (w'.out ≡ w1.out)
        × ((S.content w'.os).size ≡ pos sizeof_message)
        × (c_str (S.content w'.os).message ≡ c_str m)
        × (A.attached w'.os ≡ A.attached w1.os + 1)
  unfolding sys_send_message sysv_finish
  sys_send_message_stores m id w w1 short init id_ok ok =
      let p : ℤ = (K.shmat id w1.os).0 in
      let (s, gen, nonzero, _, at, count) = sysv_gen_info_ok K S A id w1 ok in
      let (s1, s2, run1, run2, size, text, at2, (_, _, poked1, poked2)) =
        stores_ok K S p m (moved w1 s) at short in
      (
        moved w1 s2,
        rw (init, ◌>>=◌)
            (rw id_ok
              (rw (gen, ◌>>=◌) (rw nonzero (rw (run1, ◌>>=◌) (rw (run2, ◌>>=◌) (rw ok refl)))))),
        refl,
        size,
        text,
        A.poke_attached p _ s1 s2 poked2 ∙ A.poke_attached p _ s s1 poked1 ∙ count,
      )
