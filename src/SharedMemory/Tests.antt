-- ===== src/SharedMemory/Tests.antt =====
-- A kernel with one shared object, and the theorems about shared_memory_example/main.c on it.
use linux_programming_exampl.Prelude.{
  ℕ, zero, suc, ◌+◌, ◌-◌, ◌≤◌, ◌≡◌, refl, ℤ, pos, negsuc, is_minus_one, Bool, true, false, Option,
  none, some, [], map, arith, length, take, length-replicate,
}
use linux_programming_exampl.Program.{World}
use linux_programming_exampl.Watch.{changes, snapshots}
use linux_programming_exampl.CMemory.{bytes_eq}
use linux_programming_exampl.SharedMemory.Kernel.{
  DataInfo, ShmOs, Shares, Attaches, page_size, zero_info, info_eq, monitoring_count,
}
use linux_programming_exampl.SharedMemory.Monitor.{arrivals}
use linux_programming_exampl.SharedMemory.Posix.{posix_recv_message, posix_line}
use linux_programming_exampl.SharedMemory.Posix.Recv.{posix_recv_message_total}
use linux_programming_exampl.SharedMemory.Sysv.{sysv_recv_message, sysv_line}
use linux_programming_exampl.SharedMemory.Sysv.Recv.{sysv_recv_message_total}

-- `sized` says whether the object has a size. While a process sleeps, another one stores the next
-- number as the size, `left` times.
record Toy : Type 0 where
  info : DataInfo
  sized : Bool
  attached : ℕ
  left : ℕ

abbrev next : ℤ → ℤ
next (pos n) = pos (n + 1)
next (negsuc n) = pos 0

abbrev stored : ℕ → ℤ → ℤ
stored zero x = x
stored (suc n) x = next x

abbrev work : Toy → Toy
work s = record s {
  info = record { size = stored s.left s.info.size; message = s.info.message };
  left = s.left - 1;
}

abbrev look : ℤ → Toy → Option DataInfo
look p s = elim (is_minus_one p) [
  | true ↦ none
  | false ↦ elim s.sized [ true ↦ some s.info | false ↦ none ]
]

-- `p` is what `mmap` gives, and `key` what `ftok` gives.
abbrev toy : ℤ → ℤ → ShmOs
toy p key = record {
  State = Toy;
  shm_open = λ path s. (pos 3, s);
  ftruncate = λ fd n s. (pos 0, record s { info = zero_info; sized = true });
  mmap = λ n prot fd s. (p, s);
  munmap = λ q n s. (pos 0, s);
  close = λ fd s. (pos 0, s);
  ftok = λ path id s. (key, s);
  shmget = λ k n s. (pos 9, s);
  shmat = λ id s.
      (pos 64, record { info = zero_info; sized = true; attached = s.attached + 1; left = s.left });
  peek = look;
  poke = λ q d s. elim (look q s) [ none ↦ none | some old ↦ some (record s { info = d }) ];
  sleep = work;
}

toy-Shares : (p key : ℤ) → Shares (toy p key)
toy-Shares p key = record {
  content = λ s. s.info;
  At = λ q s. (is_minus_one q ≡ false) × (s.sized ≡ true) × (length s.info.message ≡ page_size);
  Sized = λ s. (s.sized ≡ true) × (length s.info.message ≡ page_size);
  Empty = λ s. s.sized ≡ false;
  peek_at = λ q s at. ground (arith, at.0, at.1);
  poke_at =
      λ q d s at len. (record s { info = d }, ground (arith, at.0, at.1), refl, (at.0, at.1, len));
  sleep_at = λ q s at. at;
  peek_failed = λ s. refl;
  peek_short = λ q s e. ground (arith, e);
  truncated = λ fd s ok. (refl, length-replicate {A = ℕ} page_size 0);
  opened = λ path s. (λ e. e, λ e. e);
  mapped = λ prot fd s. (λ e. e, λ e ok. (ok, e.0, e.1));
  message_length = λ q s at. at.2;
  unmapped = λ q s. refl;
}

toy-Attaches : (p key : ℤ) → Attaches (toy p key) (toy-Shares p key)
unfolding toy-Shares
toy-Attaches p key = record {
  attached = λ s. s.attached;
  attach = λ id s ok. ((refl, refl, length-replicate {A = ℕ} page_size 0), refl, refl);
  poke_attached = λ q d s s' e. ground arith;
  ftok_attached = λ path id s. refl;
  shmget_attached = λ k n s. refl;
}

abbrev fresh : World Toy
fresh = record {
  os = record {
    info = record { size = pos 1; message = [] };
    sized = false;
    attached = 0;
    left = 5;
  };
  out = [];
}

-- What the monitors find, with attachments counted by `n`, before and behind their clearing.
abbrev ready : ℕ → Toy
ready n = record { info = zero_info; sized = true; attached = n; left = 5 }

-- Five messages are sent, and six looks of a monitor show them.
five_arrive :
    (p key : ℤ) (n : ℕ)
    → monitoring_count ≤ length (arrivals (toy p key) (toy-Shares p key) 6 (ready n))
unfolding toy-Shares changes snapshots info_eq bytes_eq
five_arrive p key n = omega arith

posix_recv_message_total_example :
    (w' : World Toy) × (posix_recv_message (toy (pos 64) (pos 5)) 6 fresh ≡ some (pos 0, w'))
    × ((ready 0).info ≡ zero_info)
    × (w'.out
        ≡ map posix_line (
            take monitoring_count
              (arrivals (toy (pos 64) (pos 5)) (toy-Shares (pos 64) (pos 5)) 6 (ready 0))))
    × ((s' : Toy) × (toy-Shares (pos 64) (pos 5)).At (pos 64) s' × (w'.os ≡ s'))
unfolding toy-Shares
posix_recv_message_total_example =
    posix_recv_message_total (toy (pos 64) (pos 5)) (toy-Shares (pos 64) (pos 5)) 6 (pos 3) (pos 64)
      fresh fresh.os (ready 0) (ready 0) (ready 0) refl refl refl refl refl refl
      (five_arrive (pos 64) (pos 5) 0)

sysv_recv_message_total_example :
    (w' : World Toy) × (sysv_recv_message (toy (pos 64) (pos 5)) 6 fresh ≡ some (pos 0, w'))
    × ((ready 1).info ≡ zero_info)
    × (w'.out
        ≡ map sysv_line (
            take monitoring_count
              (arrivals (toy (pos 64) (pos 5)) (toy-Shares (pos 64) (pos 5)) 6 (ready 1))))
unfolding toy-Shares
sysv_recv_message_total_example =
    sysv_recv_message_total (toy (pos 64) (pos 5)) (toy-Shares (pos 64) (pos 5))
      (toy-Attaches (pos 64) (pos 5)) 6 (pos 5) (pos 9) (pos 64) fresh fresh.os fresh.os (ready 1)
      (ready 1) refl refl refl refl refl refl refl (five_arrive (pos 64) (pos 5) 1)
