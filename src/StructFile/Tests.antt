-- ===== src/StructFile/Tests.antt =====
-- A file system with one file, and the theorem about mmap_example/main.c on it.
use linux_programming_exampl.Prelude.{
  ℕ, ◌≡◌, refl, ℤ, pos, minus_one, int_eq, int_eq_refl, Bool, true, false, ◌&&◌, ◌==◌,
  if◌then◌else◌, arith, Option, none, some, List, [], length, take, replicate,
}
use linux_programming_exampl.Program.{World}
use linux_programming_exampl.CMemory.{codes, overwrite}
use linux_programming_exampl.StructFile.{file_path, main}
use linux_programming_exampl.StructFile.Kernel.{StructOs, IsFile}
use linux_programming_exampl.StructFile.Layout.{
  MmapTestStruct, sizeof_struct, sizeof_name, sizeof_hobby,
}
use linux_programming_exampl.StructFile.RoundTrip.{main_shows_thrice, shown_thrice, filled}

-- The contents of the file, and the descriptor that was opened last with its offset.
record Disk : Type 0 where
  bytes : List ℕ
  opened : Option (ℤ × ℕ)

-- Only the open descriptor can be used, and only from the start of the file.
abbrev at_start : ℤ → Disk → Bool
at_start fd s = elim s.opened [ none ↦ false | some (x, k) ↦ int_eq x fd && k == 0 ]

abbrev write_start : ℤ → List ℕ → Disk → ℤ × Disk
write_start fd l s =
    if at_start fd s
    then (pos (length l), record { bytes = overwrite s.bytes 0 l; opened = some (fd, length l) })
    else (minus_one, s)

abbrev read_start : ℤ → ℕ → Disk → (ℤ × List ℕ) × Disk
read_start fd n s =
    let l : List ℕ = take n s.bytes in
    if at_start fd s
    then ((pos (length l), l), record s { opened = some (fd, length l) })
    else ((minus_one, []), s)

abbrev toy : StructOs
toy = record {
  State = Disk;
  strerror = λ s. [];
  open_file = λ path create s. (pos 3, record s { opened = some (pos 3, 0) });
  write = write_start;
  read_bytes = read_start;
  fstat = λ fd s. (length s.bytes, s);
  mmap = λ n fd s. (pos 64, s);
  munmap = λ p n s. (pos 0, s);
  close = λ fd s. (pos 0, record s { opened = none });
  peek = λ p s. some s.bytes;
}

toy-IsFile : IsFile toy file_path
toy-IsFile = record {
  bytes = λ s. s.bytes;
  opened = λ s. s.opened;
  At = λ p s. Unit;
  opens = λ create s. (refl, refl, refl);
  writes = λ fd l s o.
      let start : at_start fd s ≡ true = ground (arith, o, int_eq_refl fd) in
      (rw start refl, rw start refl, rw start refl);
  reads = λ fd n s o.
      let start : at_start fd s ≡ true = ground (arith, o, int_eq_refl fd) in
      (rw start refl, rw start refl, rw start refl, rw start refl);
  sizes = λ fd k s o. (refl, refl, o);
  maps = λ n fd k s o. (refl, refl, λ e. tt, o);
  peeks = λ p s at. refl;
  unmaps = λ p n s at. (refl, refl, refl);
  closes = λ fd k s o. (refl, refl);
}

abbrev unset : MmapTestStruct
unset = record { name = replicate sizeof_name 7; age = 0; hobby = replicate sizeof_hobby 7 }

abbrev world : World Disk
world = record { os = record { bytes = codes "old"; opened = none }; out = [] }

main_shows_thrice_example :
    (s : Disk) × (main toy unset (replicate sizeof_struct 7) world
      ≡ some (pos 0, record { os = s; out = shown_thrice [] (filled unset) }))
main_shows_thrice_example =
    main_shows_thrice toy toy-IsFile unset (replicate sizeof_struct 7) world refl refl refl
