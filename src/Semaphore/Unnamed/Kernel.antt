-- ===== src/Semaphore/Unnamed/Kernel.antt =====
-- The calls that semaphore_example/main.c makes for an unnamed POSIX semaphore, and the object in
-- shared memory that holds it.
use linux_programming_exampl.Prelude.{
  ℕ, zero, suc, ◌+◌, ◌≡◌, ℤ, pos, negsuc, is_minus_one, int_eq, Bool, false, ◌&&◌, Option, none,
  some, List,
}
use linux_programming_exampl.CMemory.{bytes_eq}

-- `DATA_INFO`: the bytes of the semaphore, the process that changed the counter last, the counter.
pub record DataInfo : Type 0 where
  pub sem : List ℕ
  pub pid : ℤ
  pub count : ℤ

-- The sizes of `sem_t` and of `DATA_INFO` on a 64-bit Linux.
abbrev pub sizeof_sem : ℕ
sizeof_sem = 32

abbrev pub sizeof_data_info : ℕ
sizeof_data_info = sizeof_sem + 8

-- `memcmp(a, b, sizeof(DATA_INFO)) == 0`
unfoldable pub info_eq : DataInfo → DataInfo → Bool
info_eq a b = bytes_eq a.sem b.sem && int_eq a.pid b.pid && int_eq a.count b.count

-- `x + 1`, where it does not overflow.
abbrev pub plus_one : ℤ → ℤ
plus_one (pos n) = pos (n + 1)
plus_one (negsuc zero) = pos 0
plus_one (negsuc (suc n)) = negsuc n

-- `shm_open` takes whether the object is to be made; `mmap` gives -1 for `MAP_FAILED`. `sem_wait` has
-- the outer `none` for a process that sleeps and is not woken, `peek` and `poke` for a fault.
-- `usleep` is what the other processes do meanwhile.
pub record UnnamedOs : Type 1 where
  pub State : Type 0
  pub shm_open : List ℕ → Bool → State → ℤ × State
  pub ftruncate : ℤ → ℕ → State → ℤ × State
  pub mmap : ℕ → ℤ → State → ℤ × State
  pub munmap : ℤ → ℕ → State → ℤ × State
  pub close : ℤ → State → ℤ × State
  pub sem_init : ℤ → ℕ → ℕ → State → ℤ × State
  pub sem_getvalue : ℤ → State → (ℤ × ℤ) × State
  pub sem_wait : ℤ → State → Option (ℤ × State)
  pub sem_post : ℤ → State → ℤ × State
  pub sem_destroy : ℤ → State → ℤ × State
  pub getpid : State → ℤ
  pub peek : ℤ → State → Option DataInfo
  pub poke : ℤ → DataInfo → State → Option State
  pub usleep : State → State

-- An object with its semaphore, where only this process works: its semaphore's value, and its other
-- contents.
pub record HoldsCounter (K : UnnamedOs) : Type 1 where
  pub content : K.State → DataInfo
  pub value : K.State → ℕ
  pub At : ℤ → K.State → Type 0
  pub peek_at : (p : ℤ) (s : K.State) → At p s → K.peek p s ≡ some (content s)
  pub poke_at :
      (p : ℤ) (d : DataInfo) (s : K.State)
      → At p s
      → (s' : K.State) × (K.poke p d s ≡ some s')
        × ((content s').pid ≡ d.pid)
        × ((content s').count ≡ d.count)
        × (value s' ≡ value s)
        × At p s'
  pub wait_sleeps : (p : ℤ) (s : K.State) → At p s → value s ≡ 0 → K.sem_wait p s ≡ none
  pub wait_down :
      (p : ℤ) (v : ℕ) (s : K.State)
      → At p s
      → value s ≡ suc v
      → (s' : K.State) × (K.sem_wait p s ≡ some (pos 0, s'))
        × (value s' ≡ v)
        × ((content s').count ≡ (content s).count)
        × At p s'
  pub post_up :
      (p : ℤ) (s : K.State)
      → At p s
      → ((K.sem_post p s).0 ≡ pos 0)
        × (value (K.sem_post p s).1 ≡ value s + 1)
        × ((content (K.sem_post p s).1).count ≡ (content s).count)
  pub open_keeps :
      (path : List ℕ) (s : K.State)
      → (value (K.shm_open path false s).1 ≡ value s)
        × (content (K.shm_open path false s).1 ≡ content s)
  pub mapped :
      (fd : ℤ) (s : K.State)
      → is_minus_one (K.mmap sizeof_data_info fd s).0 ≡ false
      → At (K.mmap sizeof_data_info fd s).0 (K.mmap sizeof_data_info fd s).1
  pub map_keeps :
      (fd : ℤ) (s : K.State)
      → (value (K.mmap sizeof_data_info fd s).1 ≡ value s)
        × (content (K.mmap sizeof_data_info fd s).1 ≡ content s)
  pub close_keeps :
      (fd : ℤ) (s : K.State)
      → (value (K.close fd s).1 ≡ value s)
        × (content (K.close fd s).1 ≡ content s)
        × ((p : ℤ) → At p s → At p (K.close fd s).1)
  pub unmap_keeps :
      (p : ℤ) (s : K.State)
      → (value (K.munmap p sizeof_data_info s).1 ≡ value s)
        × (content (K.munmap p sizeof_data_info s).1 ≡ content s)
