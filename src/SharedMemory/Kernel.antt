-- ===== src/SharedMemory/Kernel.antt =====
-- The calls of the operating system that shared_memory_example/main.c makes, and the object that its
-- processes share.
use linux_programming_exampl.Prelude.{
  ℕ, ◌+◌, ◌≡◌, ℤ, pos, minus_one, is_minus_one, is_zero, int_eq, length, Bool, false, ◌&&◌, Option,
  none, some, List, replicate,
}
use linux_programming_exampl.Program.{Prog, moved}
use linux_programming_exampl.CMemory.{bytes_eq}

-- `DATA_INFO`
pub record DataInfo : Type 0 where
  pub size : ℤ
  pub message : List ℕ

abbrev pub page_size : ℕ
page_size = 4096

-- An `int` and `PAGE_SIZE` characters.
abbrev pub sizeof_data_info : ℕ
sizeof_data_info = 4 + page_size

abbrev pub zero_info : DataInfo
zero_info = record { size = pos 0; message = replicate page_size 0 }

-- `memcmp(a, b, sizeof(DATA_INFO)) == 0`
unfoldable pub info_eq : DataInfo → DataInfo → Bool
unfolding bytes_eq
info_eq a b = int_eq a.size b.size && bytes_eq a.message b.message

-- A pointer is an `int`: `NULL` is 0, and `MAP_FAILED` and the error of `shmat` are -1. `peek` and
-- `poke` are accesses to the object at a pointer: `none` is a fault. `mmap` takes the length, the
-- protection and the descriptor. `sleep` is what the other processes do meanwhile.
pub record ShmOs : Type 1 where
  pub State : Type 0
  pub shm_open : List ℕ → State → ℤ × State
  pub ftruncate : ℤ → ℕ → State → ℤ × State
  pub mmap : ℕ → ℕ → ℤ → State → ℤ × State
  pub munmap : ℤ → ℕ → State → ℤ × State
  pub close : ℤ → State → ℤ × State
  pub ftok : List ℕ → ℕ → State → ℤ × State
  pub shmget : ℤ → ℕ → State → ℤ × State
  pub shmat : ℤ → State → ℤ × State
  pub peek : ℤ → State → Option DataInfo
  pub poke : ℤ → DataInfo → State → Option State
  pub sleep : State → State

abbrev pub monitoring_count : ℕ
monitoring_count = 5

-- `sizeof(message)` of a `const char *`.
abbrev pub sizeof_message : ℕ
sizeof_message = 8

module _ (K : ShmOs) where
  -- Stores to the object at a pointer.
  abbrev pub store : ℤ → (DataInfo → DataInfo) → Prog K.State (Unit {0})
  store info f w = elim (K.peek info w.os) [
    | none ↦ none
    | some d ↦ elim (K.poke info (f d) w.os) [ none ↦ none | some s ↦ some (tt, moved w s) ]
  ]

-- What the manual pages promise of an object that is mapped. `At p s`: all of it is mapped at `p`;
-- `Sized`: the object has as many bytes as a `DataInfo`; `Empty`: it has none.
pub record Shares (K : ShmOs) : Type 1 where
  pub content : K.State → DataInfo
  pub At : ℤ → K.State → Type 0
  pub Sized : K.State → Type 0
  pub Empty : K.State → Type 0
  pub peek_at : (p : ℤ) (s : K.State) → At p s → K.peek p s ≡ some (content s)
  pub poke_at :
      (p : ℤ) (d : DataInfo) (s : K.State)
      → At p s
      → length d.message ≡ page_size
      → (s' : K.State) × (K.poke p d s ≡ some s') × (content s' ≡ d) × At p s'
  pub sleep_at : (p : ℤ) (s : K.State) → At p s → At p (K.sleep s)
  pub peek_failed : (s : K.State) → K.peek minus_one s ≡ none
  -- An access behind the end of the object is a fault.
  pub peek_short : (p : ℤ) (s : K.State) → Empty s → K.peek p s ≡ none
  pub truncated :
      (fd : ℤ) (s : K.State)
      → is_minus_one (K.ftruncate fd sizeof_data_info s).0 ≡ false
      → Sized (K.ftruncate fd sizeof_data_info s).1
  pub opened :
      (path : List ℕ) (s : K.State)
      → (Empty s → Empty (K.shm_open path s).1) × (Sized s → Sized (K.shm_open path s).1)
  pub mapped :
      (prot : ℕ) (fd : ℤ) (s : K.State)
      → (Empty s → Empty (K.mmap sizeof_data_info prot fd s).1)
        × (Sized s
            → is_minus_one (K.mmap sizeof_data_info prot fd s).0 ≡ false
            → At (K.mmap sizeof_data_info prot fd s).0 (K.mmap sizeof_data_info prot fd s).1)
  pub message_length : (p : ℤ) (s : K.State) → At p s → length (content s).message ≡ page_size
  pub unmapped : (p : ℤ) (s : K.State) → content (K.munmap p sizeof_data_info s).1 ≡ content s

-- The same of `shmat`, and how often the segment is attached to the process.
pub record Attaches (K : ShmOs) (S : Shares K) : Type 1 where
  pub attached : K.State → ℕ
  pub attach :
      (id : ℤ) (s : K.State)
      → is_minus_one (K.shmat id s).0 ≡ false
      → S.At (K.shmat id s).0 (K.shmat id s).1
        × (is_zero (K.shmat id s).0 ≡ false)
        × (attached (K.shmat id s).1 ≡ attached s + 1)
  pub poke_attached :
      (p : ℤ) (d : DataInfo) (s s' : K.State) → K.poke p d s ≡ some s' → attached s' ≡ attached s
  pub ftok_attached :
      (path : List ℕ) (id : ℕ) (s : K.State) → attached (K.ftok path id s).1 ≡ attached s
  pub shmget_attached : (key : ℤ) (n : ℕ) (s : K.State) → attached (K.shmget key n s).1 ≡ attached s
