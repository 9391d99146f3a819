-- ===== src/Semaphore/Unnamed/Tests.antt =====
-- A kernel with one unnamed semaphore in shared memory, and the theorems about it.
use linux_programming_exampl.Prelude.{
  ℕ, zero, suc, ◌+◌, ◌-◌, ◌≤◌, ◌<◌, ◌≡◌, refl, ℤ, pos, is_minus_one, true, false, Option, none,
  some, [], arith, length, take,
}
use linux_programming_exampl.Program.{World}
use linux_programming_exampl.CMemory.{bytes_eq}
use linux_programming_exampl.Semaphore.Unnamed.{monitor_loop, zero_info}
use linux_programming_exampl.Semaphore.Unnamed.Kernel.{
  UnnamedOs, HoldsCounter, DataInfo, info_eq, plus_one,
}
use linux_programming_exampl.Semaphore.Unnamed.Counter.{Available, gets, gets_total, raised}
use linux_programming_exampl.Semaphore.Unnamed.Monitor.{
  Visible, changed_states, late_lines, monitor_loop_late,
}

record Toy : Type 0 where
  info : DataInfo
  value : ℕ

abbrev look : ℤ → Toy → Option DataInfo
look p s = elim (is_minus_one p) [ true ↦ none | false ↦ some s.info ]

-- While the monitor sleeps, another process runs `get`.
abbrev work : Toy → Toy
work s = record { info = record s.info { count = plus_one s.info.count }; value = s.value - 1 }

abbrev toy : UnnamedOs
toy = record {
  State = Toy;
  shm_open = λ path create s. (pos 3, s);
  ftruncate = λ fd n s. (pos 0, s);
  mmap = λ n fd s. (pos 64, s);
  munmap = λ p n s. (pos 0, s);
  close = λ fd s. (pos 0, s);
  sem_init = λ p shared v s. (pos 0, record s { value = v });
  sem_getvalue = λ p s. ((pos 0, pos s.value), s);
  sem_wait = λ p s. elim s.value [ zero ↦ none | suc v ↦ some (pos 0, record s { value = v }) ];
  sem_post = λ p s. (pos 0, record s { value = s.value + 1 });
  sem_destroy = λ p s. (pos 0, s);
  getpid = λ s. pos 7;
  peek = look;
  poke = λ p d s. elim (is_minus_one p) [ true ↦ none | false ↦ some (record s { info = d }) ];
  usleep = work;
}

toy-HoldsCounter : HoldsCounter toy
toy-HoldsCounter = record {
  content = λ s. s.info;
  value = λ s. s.value;
  At = λ p s. is_minus_one p ≡ false;
  peek_at = λ p s at. ground (arith, at);
  poke_at = λ p d s at. (record s { info = d }, ground (arith, at), refl, refl, refl, at);
  wait_sleeps = λ p s at e. ground (arith, e);
  wait_down = λ p v s at e. (record s { value = v }, ground (arith, e), refl, refl, at);
  post_up = λ p s at. (refl, refl, refl);
  open_keeps = λ path s. (refl, refl);
  mapped = λ fd s ok. ok;
  map_keeps = λ fd s. (refl, refl);
  close_keeps = λ fd s. (refl, refl, λ p at. at);
  unmap_keeps = λ p s. (refl, refl);
}

toy-Available : Available toy
toy-Available = record { can_open = λ s. refl; can_map = λ fd s. refl }

toy-Visible : Visible toy (pos 64)
toy-Visible = record {
  content = λ s. s.info;
  value = λ s. pos s.value;
  At = λ s. Unit;
  peek_at = λ s at. refl;
  getvalue = λ s at. refl;
  usleep_at = λ s at. tt;
}

abbrev world : World Toy
world = record { os = record { info = zero_info; value = 5 }; out = [] }

gets_total_example :
    (6 ≤ 5
      → (w' : World Toy) × (gets toy 6 world ≡ some (tt, w'))
        × (w'.os.value + 6 ≡ 5)
        × (w'.os.info.count ≡ raised 6 (pos 0)))
    × (5 < 6 → gets toy 6 world ≡ none)
unfolding toy-HoldsCounter
gets_total_example = gets_total toy toy-HoldsCounter toy-Available 6 world

five_changes : 5 ≤ length (changed_states toy (pos 64) toy-Visible 5 zero_info world.os)
unfolding toy-Visible changed_states info_eq bytes_eq
five_changes = omega arith

world_at : toy-Visible.At world.os
unfolding toy-Visible
world_at = tt

monitor_loop_late_example :
    (w' : World Toy) × (monitor_loop toy (pos 64) 5 zero_info 0 (pos 99) world ≡ some (tt, w'))
    × (w'.out
        ≡ late_lines toy
            (pos 64)
            toy-Visible
            (pos 99)
            (take 5 (changed_states toy (pos 64) toy-Visible 5 zero_info world.os)))
monitor_loop_late_example =
    monitor_loop_late toy (pos 64) toy-Visible 5 zero_info 0 4 (pos 99) world world_at refl
      five_changes
