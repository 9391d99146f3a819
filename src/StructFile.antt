-- ===== src/StructFile.antt =====
-- mmap_example/main.c: a structure that goes through a file, and through a mapping of that file.
pub mod Kernel
pub mod Layout
pub mod RoundTrip
mod Tests
use linux_programming_exampl.Prelude.{
  ℕ, String, ◌+◌, ◌-◌, ℤ, pos, minus_one, is_minus_one, is_zero, Bool, true, false, Option, none,
  some, List, [], ◌∷◌, replicate, if◌then◌else◌, length,
}
use linux_programming_exampl.Program.{
  Prog, World, Output, int, text, printf, pure, ◌>>=◌, ◌>>◌, print, sys, said,
}
use linux_programming_exampl.CMemory.{codes, c_str, strncpy, memcpy}
use linux_programming_exampl.Watch.{read}
use Kernel.{StructOs}
use Layout.{MmapTestStruct, encode, decode, sizeof_struct, sizeof_name, sizeof_hobby, signed}

abbrev pub file_path : List ℕ
file_path = codes "/home/alwns28/mmap_example/mmap_test"

abbrev pub sizeof_pointer : ℕ
sizeof_pointer = 8

module _ {S : Type 0} where
  pub yj_print_struct : MmapTestStruct → Prog S (Unit {0})
  yj_print_struct d = do
    print (printf "SETTING DATA:\n" [])
    print (printf "    * name: %s\n" (text (c_str d.name) ∷ []))
    print (printf "    * age: %d\n" (int (signed d.age) ∷ []))
    print (printf "    * hobby: %s\n" (text (c_str d.hobby) ∷ []))
    print (printf "================================\n" [])

-- The new value of `*out`.
unfoldable pub yj_setting_struct : List ℕ → ℕ → List ℕ → MmapTestStruct → MmapTestStruct
yj_setting_struct in_name in_age in_hobby out = record {
  name = strncpy out.name in_name sizeof_name;
  age = in_age;
  hobby = strncpy out.hobby in_hobby sizeof_hobby;
}

module _ (K : StructOs) where
  -- `printf(format, strerror(errno))`
  abbrev pub complain : String → Prog K.State (Unit {0})
  complain format w = some (tt, said w (printf format (text (K.strerror w.os) ∷ [])))

  unfoldable pub yj_create_file : MmapTestStruct → Prog K.State ℤ
  yj_create_file message = do
    fd ← sys (K.open_file file_path true)
    if is_minus_one fd then (do complain "open fail: %s\n"; pure minus_one) else (do
      ret ← sys (K.write fd (encode message))
      if is_minus_one ret
          then (do complain "write fail: %s\n"; pure minus_one)
          else (do sys (K.close fd); pure (pos 0)))

  -- `garbage` is what the uninitialised structure holds; what `read` gives lies over it.
  unfoldable pub yj_read_file : List ℕ → Prog K.State ℤ
  yj_read_file garbage = do
    fd ← sys (K.open_file file_path false)
    if is_minus_one fd then (do complain "open fail: %s\n"; pure minus_one) else (do
      (out_bytes, bytes) ← sys (K.read_bytes fd sizeof_struct)
      if is_minus_one out_bytes then (do complain "read fail: %s\n"; pure minus_one) else (do
        yj_print_struct (decode (memcpy garbage bytes (length bytes)))
        sys (K.close fd)
        pure (pos 0)))

  unfoldable pub yj_write_mmap : Prog K.State (Unit {0})
  yj_write_mmap = do
    fd ← sys (K.open_file file_path false)
    if is_minus_one fd then complain "open fail: %s\n" else (do
      st_size ← sys (K.fstat fd)
      p ← sys (K.mmap st_size fd)
      if is_minus_one p then complain "mmap fail : %s\n" else (do sys (K.close fd); pure tt))

  unfoldable pub yj_read_mmap : Prog K.State (Unit {0})
  yj_read_mmap = do
    fd ← sys (K.open_file file_path false)
    if is_minus_one fd then complain "open fail: %s\n" else (do
      st_size ← sys (K.fstat fd)
      out ← sys (K.mmap st_size fd)
      if is_minus_one out then complain "mmap fail : %s\n" else (do
        bytes ← read (K.peek out)
        yj_print_struct (decode bytes)
        ret ← sys (K.munmap out sizeof_pointer)
        if is_minus_one ret then complain "munmap() fail: %s\n" else pure tt
        sys (K.close fd)
        pure tt))

  pub main : MmapTestStruct → List ℕ → Prog K.State ℤ
  main unset garbage = do
    print (printf "= STEP 1: Setting struct data \n" [])
    let filled =
        yj_setting_struct (codes "YOON YEOUNG JIN") 26 (codes "Play Room Escape game") unset
    yj_print_struct filled
    print (printf "= STEP 2: Write file \n" [])
    ret ← yj_create_file filled
    if is_zero ret
        then print (printf "        ==> SUCCESS\n" [])
        else print (printf "        ==> FAIL\n" [])
    yj_read_file garbage
    print (printf "= STEP 3: Write memory to use mmap() \n" [])
    yj_write_mmap
    print (printf "================================\n" [])
    print (printf "= STEP 4: Read memory to use mmap() and other MMAP_TEST_STRUCT \n" [])
    yj_read_mmap
    pure (pos 0)
