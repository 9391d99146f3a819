-- ===== src/StructFile/Kernel.antt =====
-- The calls of the operating system that mmap_example/main.c makes.
use linux_programming_exampl.Prelude.{
  ℕ, ◌≡◌, ℤ, is_minus_one, false, Bool, Option, none, some, List, length, take,
}
use linux_programming_exampl.CMemory.{overwrite}

-- `open_file` takes whether the file is to be made; `fstat` gives the file's size, and `read_bytes` its
-- result and the bytes. `peek` is an access to a mapping: `none` is a fault.
pub record StructOs : Type 1 where
  pub State : Type 0
  pub strerror : State → List ℕ
  pub open_file : List ℕ → Bool → State → ℤ × State
  pub write : ℤ → List ℕ → State → ℤ × State
  pub read_bytes : ℤ → ℕ → State → (ℤ × List ℕ) × State
  pub fstat : ℤ → State → ℕ × State
  pub mmap : ℕ → ℤ → State → ℤ × State
  pub munmap : ℤ → ℕ → State → ℤ × State
  pub close : ℤ → State → ℤ × State
  pub peek : ℤ → State → Option (List ℕ)

-- A file system on which the file of a path can be written, read and mapped; `bytes` are the
-- file's. `At p s`: all of the file is mapped at `p`. `opened` is the descriptor that was opened last,
-- with its offset.
pub record IsFile (K : StructOs) (path : List ℕ) : Type 1 where
  pub bytes : K.State → List ℕ
  pub opened : K.State → Option (ℤ × ℕ)
  pub At : ℤ → K.State → Type 0
  pub opens :
      (create : Bool) (s : K.State)
      → (is_minus_one (K.open_file path create s).0 ≡ false)
        × (bytes (K.open_file path create s).1 ≡ bytes s)
        × (opened (K.open_file path create s).1 ≡ some ((K.open_file path create s).0, 0))
  pub writes :
      (fd : ℤ) (l : List ℕ) (s : K.State)
      → opened s ≡ some (fd, 0)
      → (is_minus_one (K.write fd l s).0 ≡ false)
        × (bytes (K.write fd l s).1 ≡ overwrite (bytes s) 0 l)
        × (opened (K.write fd l s).1 ≡ some (fd, length l))
  pub reads :
      (fd : ℤ) (n : ℕ) (s : K.State)
      → opened s ≡ some (fd, 0)
      → (is_minus_one (K.read_bytes fd n s).0.0 ≡ false)
        × ((K.read_bytes fd n s).0.1 ≡ take n (bytes s))
        × (bytes (K.read_bytes fd n s).1 ≡ bytes s)
        × (opened (K.read_bytes fd n s).1 ≡ some (fd, length (take n (bytes s))))
  pub sizes :
      (fd : ℤ) (k : ℕ) (s : K.State)
      → opened s ≡ some (fd, k)
      → ((K.fstat fd s).0 ≡ length (bytes s))
        × (bytes (K.fstat fd s).1 ≡ bytes s)
        × (opened (K.fstat fd s).1 ≡ some (fd, k))
  pub maps :
      (n : ℕ) (fd : ℤ) (k : ℕ) (s : K.State)
      → opened s ≡ some (fd, k)
      → (is_minus_one (K.mmap n fd s).0 ≡ false)
        × (bytes (K.mmap n fd s).1 ≡ bytes s)
        × (n ≡ length (bytes s) → At (K.mmap n fd s).0 (K.mmap n fd s).1)
        × (opened (K.mmap n fd s).1 ≡ some (fd, k))
  pub peeks : (p : ℤ) (s : K.State) → At p s → K.peek p s ≡ some (bytes s)
  pub unmaps :
      (p : ℤ) (n : ℕ) (s : K.State)
      → At p s
      → (is_minus_one (K.munmap p n s).0 ≡ false)
        × (bytes (K.munmap p n s).1 ≡ bytes s)
        × (opened (K.munmap p n s).1 ≡ opened s)
  pub closes :
      (fd : ℤ) (k : ℕ) (s : K.State)
      → opened s ≡ some (fd, k)
      → (bytes (K.close fd s).1 ≡ bytes s) × (opened (K.close fd s).1 ≡ none)
