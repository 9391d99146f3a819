-- ===== src/FileMap/Kernel.antt =====
-- The calls of the operating system that mmap_example_2/main.c makes, and the objects it maps.
use linux_programming_exampl.Prelude.{
  ℕ, suc, ◌+◌, ◌≡◌, ℤ, pos, is_minus_one, int_eq, Bool, false, ◌&&◌, Option, some, List, length,
}
use linux_programming_exampl.CMemory.{bytes_eq}

abbrev pub max_buf_len : ℕ
max_buf_len = 4096

-- `DATA_INFO` and `ANON_INFO`: a number, which is the size or the process, and a message.
pub record Info : Type 0 where
  pub number : ℤ
  pub message : List ℕ

abbrev pub sizeof_info : ℕ
sizeof_info = 4 + max_buf_len

-- `memcmp` of two objects is 0.
unfoldable pub info_eq : Info → Info → Bool
info_eq a b = int_eq a.number b.number && bytes_eq a.message b.message

-- Pointers are `int`s, with -1 for `MAP_FAILED` and 0 for `NULL`. `open_file` takes whether the file is to
-- be made. `peek` and `poke` are accesses to an object: `none` is a fault. `usleep` is what other
-- processes do meanwhile.
pub record FileOs : Type 1 where
  pub State : Type 0
  pub open_file : List ℕ → Bool → State → ℤ × State
  pub ftruncate : ℤ → ℕ → State → ℤ × State
  pub mmap : ℕ → ℤ → State → ℤ × State
  pub munmap : ℤ → ℕ → State → ℤ × State
  pub close : ℤ → State → ℤ × State
  pub peek : ℤ → State → Option Info
  pub poke : ℤ → Info → State → Option State
  pub usleep : State → State

-- The calls of the anonymous mode. `fork` and `wait` give a process or -1; `wait` is called when
-- there is a child, and `sleep` takes seconds.
pub record AnonOs : Type 1 where
  pub State : Type 0
  pub mmap_anonymous : ℕ → State → ℤ × State
  pub munmap : ℤ → ℕ → State → ℤ × State
  pub fork : State → ℤ × State
  pub wait : State → Option (ℤ × State)
  pub getpid : State → ℤ
  pub sleep : ℕ → State → State
  pub usleep : State → State
  pub peek : ℤ → State → Option Info
  pub poke : ℤ → Info → State → Option State

-- What the manual pages promise of a file that is mapped; `At p s`: all of it is mapped at `p`.
pub record Maps (K : FileOs) : Type 1 where
  pub content : K.State → Info
  pub At : ℤ → K.State → Type 0
  pub peek_at : (p : ℤ) (s : K.State) → At p s → K.peek p s ≡ some (content s)
  pub poke_at :
      (p : ℤ) (d : Info) (s : K.State)
      → At p s
      → length d.message ≡ max_buf_len
      → (s' : K.State) × (K.poke p d s ≡ some s') × (content s' ≡ d) × At p s'
  pub usleep_at : (p : ℤ) (s : K.State) → At p s → At p (K.usleep s)
  pub message_length : (p : ℤ) (s : K.State) → At p s → length (content s).message ≡ max_buf_len
  pub closed :
      (fd : ℤ) (s : K.State)
      → (content (K.close fd s).1 ≡ content s) × ((p : ℤ) → At p s → At p (K.close fd s).1)
  pub unmapped : (p : ℤ) (s : K.State) → content (K.munmap p sizeof_info s).1 ≡ content s

-- A process that shares an anonymous mapping with its children. `children` counts those that it has
-- not waited for.
pub record IsFamily (K : AnonOs) : Type 1 where
  pub content : K.State → Info
  pub At : ℤ → K.State → Type 0
  pub children : K.State → ℕ
  pub peek_at : (p : ℤ) (s : K.State) → At p s → K.peek p s ≡ some (content s)
  pub poke_at :
      (p : ℤ) (d : Info) (s : K.State)
      → At p s
      → length d.message ≡ max_buf_len
      → (s' : K.State) × (K.poke p d s ≡ some s')
        × (content s' ≡ d)
        × (children s' ≡ children s)
        × At p s'
  pub message_length : (p : ℤ) (s : K.State) → At p s → length (content s).message ≡ max_buf_len
  pub usleep_keeps :
      (p : ℤ) (s : K.State) → At p s → At p (K.usleep s) × (children (K.usleep s) ≡ children s)
  pub sleep_at : (p : ℤ) (n : ℕ) (s : K.State) → At p s → At p (K.sleep n s)
  pub mapped :
      (s : K.State)
      → is_minus_one (K.mmap_anonymous sizeof_info s).0 ≡ false
      → At (K.mmap_anonymous sizeof_info s).0 (K.mmap_anonymous sizeof_info s).1
        × (children (K.mmap_anonymous sizeof_info s).1 ≡ children s)
  pub unmap_children : (p : ℤ) (s : K.State) → children (K.munmap p sizeof_info s).1 ≡ children s
  -- `fork` in the parent.
  pub fork_parent :
      (p : ℤ) (pid : ℕ) (s s' : K.State)
      → K.fork s ≡ (pos (suc pid), s')
      → At p s
      → At p s' × (children s' ≡ children s + 1)
  -- `fork` in a child.
  pub fork_child : (p : ℤ) (s s' : K.State) → K.fork s ≡ (pos 0, s') → At p s → At p s'
  -- Each child ends, and `wait` gives one of them.
  pub wait_child :
      (n : ℕ) (s : K.State)
      → children s ≡ suc n
      → (pid : ℕ) × (s' : K.State) × (K.wait s ≡ some (pos pid, s')) × (children s' ≡ n)
