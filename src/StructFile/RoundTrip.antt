-- ===== src/StructFile/RoundTrip.antt =====
-- The structure of mmap_example/main.c comes back from the file and from the mapping.
use linux_programming_exampl.Prelude.{
  ℕ, ◌≡◌, refl, sym, ap, ◌∙◌, pos, true, false, some, List, [], ◌∷◌, ◌++◌, append_assoc, append-nil,
  arith, length, take, drop, take-append_self,
}
use linux_programming_exampl.Program.{World, Output, int, text, printf, moved}
use linux_programming_exampl.CMemory.{codes, c_str, memcpy}
use linux_programming_exampl.CMemory.Laws.{overwrite_zero, memcpy_all, length-strncpy}
use linux_programming_exampl.StructFile.{
  yj_print_struct, yj_setting_struct, yj_create_file, yj_read_file, yj_write_mmap, yj_read_mmap,
  main, file_path, sizeof_pointer,
}
use linux_programming_exampl.StructFile.Kernel.{StructOs, IsFile}
use linux_programming_exampl.StructFile.Layout.{
  MmapTestStruct, IsStruct, encode, decode, decode-encode, length-encode, sizeof_struct, signed,
  sizeof_name, sizeof_hobby,
}

-- What `yj_print_struct` prints.
abbrev pub lines : MmapTestStruct → List Output
lines d =
    printf "SETTING DATA:\n" []
    ∷ printf "    * name: %s\n" (text (c_str d.name) ∷ [])
    ∷ printf "    * age: %d\n" (int (signed d.age) ∷ [])
    ∷ printf "    * hobby: %s\n" (text (c_str d.hobby) ∷ [])
    ∷ printf "================================\n" []
    ∷ []

abbrev line : {S : Type 0} → World S → Output → World S
line w o = record { os = w.os; out = w.out ++ (o ∷ []) }

print_lines :
    {S : Type 0} (d : MmapTestStruct) (w : World S)
    → yj_print_struct d w ≡ some (tt, record { os = w.os; out = w.out ++ lines d })
unfolding yj_print_struct
print_lines d w =
    let a : Output = printf "SETTING DATA:\n" [] in
    let b : Output = printf "    * name: %s\n" (text (c_str d.name) ∷ []) in
    let c : Output = printf "    * age: %d\n" (int (signed d.age) ∷ []) in
    let e : Output = printf "    * hobby: %s\n" (text (c_str d.hobby) ∷ []) in
    let f : Output = printf "================================\n" [] in
    rw
      (
        append_assoc (((w.out ++ (a ∷ [])) ++ (b ∷ [])) ++ (c ∷ [])) (e ∷ []) (f ∷ []),
        append_assoc ((w.out ++ (a ∷ [])) ++ (b ∷ [])) (c ∷ []) (e ∷ f ∷ []),
        append_assoc (w.out ++ (a ∷ [])) (b ∷ []) (c ∷ e ∷ f ∷ []),
        append_assoc w.out (a ∷ []) (b ∷ c ∷ e ∷ f ∷ []),
      )
      refl

abbrev pub filled : MmapTestStruct → MmapTestStruct
filled unset = yj_setting_struct (codes "YOON YEOUNG JIN") 26 (codes "Play Room Escape game") unset

-- What a run prints.
abbrev pub shown_thrice : List Output → MmapTestStruct → List Output
shown_thrice out d =
    (((((((((out ++ (printf "= STEP 1: Setting struct data \n" [] ∷ [])) ++ lines d)
                  ++ (printf "= STEP 2: Write file \n" [] ∷ []))
                ++ (printf "        ==> SUCCESS\n" [] ∷ []))
              ++ lines d)
            ++ (printf "= STEP 3: Write memory to use mmap() \n" [] ∷ []))
          ++ (printf "================================\n" [] ∷ []))
        ++ (printf "= STEP 4: Read memory to use mmap() and other MMAP_TEST_STRUCT \n" [] ∷ []))
      ++ lines d)

module _ (K : StructOs) (F : IsFile K file_path) where
  -- Writing replaces the beginning of the file.
  pub yj_create_file_ok :
      (d : MmapTestStruct) (w : World K.State)
      → IsStruct d
      → (s : K.State) × (rest : List ℕ) × (yj_create_file K d w ≡ some (pos 0, moved w s))
        × (F.bytes s ≡ encode d ++ rest)
  unfolding yj_create_file
  yj_create_file_ok d w ok =
      let (fd, s1) = K.open_file file_path true w.os in
      let (opened, same, o1) = F.opens true w.os in
      let s2 : K.State = (K.write fd (encode d) s1).1 in
      let (written, now, o2) = F.writes fd (encode d) s1 o1 in
      (
        (K.close fd s2).1,
        drop (length (encode d)) (F.bytes s1),
        ground (arith, opened, written),
        (F.closes fd (length (encode d)) s2 o2).0 ∙ now ∙ overwrite_zero (F.bytes s1) (encode d),
      )

  -- When the file begins with the bytes of a structure, `yj_read_file` prints that structure, whatever
  -- its variable held before, and returns 0; the file stays as it is.
  pub yj_read_file_ok :
      (d : MmapTestStruct) (garbage rest : List ℕ) (w : World K.State)
      → IsStruct d
      → length garbage ≡ sizeof_struct
      → F.bytes w.os ≡ encode d ++ rest
      → (s : K.State) × (yj_read_file K garbage w
          ≡ some (pos 0, record { os = s; out = w.out ++ lines d }))
        × (F.bytes s ≡ F.bytes w.os)
  unfolding yj_read_file
  yj_read_file_ok d garbage rest w ok len e =
      let (fd, s1) = K.open_file file_path false w.os in
      let (opened, same1, o1) = F.opens false w.os in
      let s2 : K.State = (K.read_bytes fd sizeof_struct s1).1 in
      let bytes : List ℕ = (K.read_bytes fd sizeof_struct s1).0.1 in
      let (got, is, same2, o2) = F.reads fd sizeof_struct s1 o1 in
      let whole : bytes ≡ encode d =
        is
        ∙ ap (take sizeof_struct) (same1 ∙ e)
        ∙ ap (λ k. take k (encode d ++ rest)) (sym (length-encode d ok))
        ∙ take-append_self (encode d) rest in
      let full : length bytes ≡ sizeof_struct = ap length whole ∙ length-encode d ok in
      let shown : decode (memcpy garbage bytes (length bytes)) ≡ d =
        ap decode (memcpy_all garbage bytes (length bytes) (full ∙ sym len) refl ∙ whole)
        ∙ ap decode (sym (append-nil (encode d)))
        ∙ decode-encode d [] ok in
      (
        (K.close fd s2).1,
        ground (arith, opened, got, shown, print_lines d (moved w s2)),
        (F.closes fd (length (take sizeof_struct (F.bytes s1))) s2 o2).0 ∙ same2 ∙ same1,
      )

  -- The same through a mapping.
  pub yj_read_mmap_ok :
      (d : MmapTestStruct) (rest : List ℕ) (w : World K.State)
      → IsStruct d
      → F.bytes w.os ≡ encode d ++ rest
      → (s : K.State) × (yj_read_mmap K w ≡ some (tt, record { os = s; out = w.out ++ lines d }))
        × (F.bytes s ≡ F.bytes w.os)
  unfolding yj_read_mmap
  yj_read_mmap_ok d rest w ok e =
      let (fd, s1) = K.open_file file_path false w.os in
      let (opened, same1, o1) = F.opens false w.os in
      let (size, s2) = K.fstat fd s1 in
      let (is_size, same2, o2) = F.sizes fd 0 s1 o1 in
      let (p, s3) = K.mmap size fd s2 in
      let (mapped, same3, at, o3) = F.maps size fd 0 s2 o2 in
      let at_p : F.At p s3 = at (is_size ∙ ap length (sym same2)) in
      let peeked : K.peek p s3 ≡ some (F.bytes s3) = F.peeks p s3 at_p in
      let s4 : K.State = (K.munmap p sizeof_pointer s3).1 in
      let (unmapped, same4, o4) = F.unmaps p sizeof_pointer s3 at_p in
      let shown : decode (F.bytes s3) ≡ d =
        ap decode (same3 ∙ same2 ∙ same1 ∙ e) ∙ decode-encode d rest ok in
      (
        (K.close fd s4).1,
        ground (arith, opened, mapped, peeked, shown, print_lines d (moved w s3), unmapped),
        (F.closes fd 0 s4 (o4 ∙ o3)).0 ∙ same4 ∙ same3 ∙ same2 ∙ same1,
      )

  -- Mapping the file prints nothing and leaves the file as it is.
  yj_write_mmap_ok :
      (w : World K.State)
      → (s : K.State) × (yj_write_mmap K w ≡ some (tt, moved w s)) × (F.bytes s ≡ F.bytes w.os)
  unfolding yj_write_mmap
  yj_write_mmap_ok w =
      let (fd, s1) = K.open_file file_path false w.os in
      let (opened, same1, o1) = F.opens false w.os in
      let (size, s2) = K.fstat fd s1 in
      let (_, same2, o2) = F.sizes fd 0 s1 o1 in
      let s3 : K.State = (K.mmap size fd s2).1 in
      let (mapped, same3, _, o3) = F.maps size fd 0 s2 o2 in
      (
        (K.close fd s3).1,
        ground (arith, opened, mapped),
        (F.closes fd 0 s3 o3).0 ∙ same3 ∙ same2 ∙ same1,
      )

  -- `yj_setting_struct` gives arrays of the right sizes, and `age` a word.
  filled-IsStruct :
      (unset : MmapTestStruct)
      → length unset.name ≡ sizeof_name
      → length unset.hobby ≡ sizeof_hobby
      → IsStruct (filled unset)
  unfolding yj_setting_struct
  filled-IsStruct unset n h = (
    length-strncpy unset.name (codes "YOON YEOUNG JIN") sizeof_name (omega arith) ∙ n,
    omega arith,
    length-strncpy unset.hobby (codes "Play Room Escape game") sizeof_hobby (omega arith) ∙ h,
  )

  -- When the file can be written, read and mapped, `main` prints the structure that it filled three
  -- times, unchanged: from its own memory, from the file, and from the mapping. It returns 0. What
  -- the file and the uninitialised variables held before does not matter.
  pub main_shows_thrice :
      (unset : MmapTestStruct) (garbage : List ℕ) (w : World K.State)
      → length unset.name ≡ sizeof_name
      → length unset.hobby ≡ sizeof_hobby
      → length garbage ≡ sizeof_struct
      → (s : K.State) × (main K unset garbage w
          ≡ some (pos 0, record { os = s; out = shown_thrice w.out (filled unset) }))
  unfolding main
  main_shows_thrice unset garbage w n h len =
      let d : MmapTestStruct = filled unset in
      let ok : IsStruct d = filled-IsStruct unset n h in
      let w1 : World K.State = line w (printf "= STEP 1: Setting struct data \n" []) in
      let w2 : World K.State =
        line (record { os = w.os; out = w1.out ++ lines d })
          (printf "= STEP 2: Write file \n" []) in
      let (s3, rest, made, e3) = yj_create_file_ok d w2 ok in
      let w3 : World K.State = line (moved w2 s3) (printf "        ==> SUCCESS\n" []) in
      let (s4, got, e4) = yj_read_file_ok d garbage rest w3 ok len e3 in
      let w4 : World K.State =
        line (record { os = s4; out = w3.out ++ lines d })
          (printf "= STEP 3: Write memory to use mmap() \n" []) in
      let (s5, mapped, e5) = yj_write_mmap_ok w4 in
      let w5 : World K.State =
        line (line (moved w4 s5) (printf "================================\n" []))
          (printf "= STEP 4: Read memory to use mmap() and other MMAP_TEST_STRUCT \n" []) in
      let (s6, seen, _) = yj_read_mmap_ok d rest w5 ok (e5 ∙ e4 ∙ e3) in
      (s6, ground (arith, print_lines d w1, made, got, mapped, seen))
