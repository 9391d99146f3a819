-- ===== src/FileMap/Tests.antt =====
-- Kernels with one mapped object, and the theorems about mmap_example_2/main.c on them.
use linux_programming_exampl.Prelude.{
  ℕ, zero, suc, ◌+◌, ◌-◌, ◌≤◌, ◌≡◌, refl, sym, ap, ◌∙◌, ℤ, pos, negsuc, minus_one, is_minus_one,
  true, false, Option, none, some, List, [], ◌∷◌, ◌++◌, map, arith, length, take, length-replicate,
}
use linux_programming_exampl.Program.{World, printf}
use linux_programming_exampl.CMemory.{bytes_eq}
use linux_programming_exampl.Watch.{changes, snapshots}
use linux_programming_exampl.FileMap.Kernel.{
  FileOs, AnonOs, Maps, IsFamily, Info, max_buf_len, info_eq,
}
use linux_programming_exampl.FileMap.Anon.{do_anon, zero_info, anon_line, terminate_line, fork_num}
use linux_programming_exampl.FileMap.Anon.Parent.{do_anon_reaps, forked, looks}

-- `writers` counts the children that have not written yet.
record Toy : Type 0 where
  info : Info
  children : ℕ
  writers : ℕ

abbrev next : ℤ → ℤ
next (pos n) = pos (n + 1)
next (negsuc n) = pos 0

abbrev stored : ℕ → ℤ → ℤ
stored zero x = x
stored (suc n) x = next x

-- While the parent sleeps, the next child stores its number.
abbrev work : Toy → Toy
work s = record s {
  info = record { number = stored s.writers s.info.number; message = s.info.message };
  writers = s.writers - 1;
}

abbrev look : ℤ → Toy → Option Info
look p s = elim (is_minus_one p) [ true ↦ none | false ↦ some s.info ]

abbrev keep : ℤ → Info → Toy → Option Toy
keep p d s = elim (is_minus_one p) [ true ↦ none | false ↦ some (record s { info = d }) ]

abbrev toy_file : FileOs
toy_file = record {
  State = Toy;
  open_file = λ path create s. (pos 3, s);
  ftruncate = λ fd n s. (pos 0, s);
  mmap = λ n fd s. (pos 64, s);
  munmap = λ p n s. (pos 0, s);
  close = λ fd s. (pos 0, s);
  peek = look;
  poke = keep;
  usleep = work;
}

-- `pid` is what `fork` gives.
abbrev toy_anon : ℕ → AnonOs
toy_anon pid = record {
  State = Toy;
  mmap_anonymous =
      λ n s. (pos 64, record { info = zero_info; children = s.children; writers = s.writers });
  munmap = λ p n s. (pos 0, s);
  fork = λ s. (pos pid, record s { children = s.children + 1; writers = s.writers + 1 });
  wait = λ s. elim s.children [
    | zero ↦ some (minus_one, s)
    | suc n ↦ some (pos 8, record s { children = n })
  ];
  getpid = λ s. pos 8;
  sleep = λ n s. s;
  usleep = work;
  peek = look;
  poke = keep;
}

abbrev Whole : ℤ → Toy → Type 0
Whole p s = (is_minus_one p ≡ false) × (length s.info.message ≡ max_buf_len)

toy_file-Maps : Maps toy_file
toy_file-Maps = record {
  content = λ s. s.info;
  At = Whole;
  peek_at = λ p s at. ground (arith, at.0);
  poke_at = λ p d s at len. (record s { info = d }, ground (arith, at.0), refl, (at.0, len));
  usleep_at = λ p s at. at;
  message_length = λ p s at. at.1;
  closed = λ fd s. (refl, λ p at. at);
  unmapped = λ p s. refl;
}

toy_anon-IsFamily : (pid : ℕ) → IsFamily (toy_anon pid)
toy_anon-IsFamily pid = record {
  content = λ s. s.info;
  At = Whole;
  children = λ s. s.children;
  peek_at = λ p s at. ground (arith, at.0);
  poke_at = λ p d s at len. (record s { info = d }, ground (arith, at.0), refl, refl, (at.0, len));
  message_length = λ p s at. at.1;
  usleep_keeps = λ p s at. (at, refl);
  sleep_at = λ p n s at. at;
  mapped = λ s ok. ((refl, length-replicate {A = ℕ} max_buf_len 0), refl);
  unmap_children = λ p s. refl;
  fork_parent = λ p q s s' e at. (
    (at.0, ap (λ (r : ℤ × Toy). length r.1.info.message) (sym e) ∙ at.1),
    ap (λ (r : ℤ × Toy). r.1.children) (sym e),
  );
  fork_child = λ p s s' e at. (at.0, ap (λ (r : ℤ × Toy). length r.1.info.message) (sym e) ∙ at.1);
  wait_child = λ n s e. (8, record s { children = n }, ground (arith, e), refl);
}

abbrev world : World Toy
world = record { os = record { info = zero_info; children = 0; writers = 0 }; out = [] }

-- The parent behind its five calls of `fork`.
abbrev family : Toy
family = forked (toy_anon 7) (toy_anon-IsFamily 7) fork_num world.os

-- Each of the five children writes once, and six looks of the parent show it.
five_write : fork_num ≤ length (looks (toy_anon 7) (toy_anon-IsFamily 7) 6 family)
unfolding toy_anon-IsFamily changes snapshots info_eq bytes_eq
five_write = omega arith

do_anon_reaps_example :
    (pids : List ℕ) × (w' : World Toy) × (do_anon (toy_anon 7) 6 world ≡ some (pos 0, w'))
    × (length pids ≡ fork_num)
    × (w'.os.children ≡ 0)
    × (w'.out
        ≡ (((printf "* START ANONYMOUS MODE \n" [] ∷ [])
              ++ map anon_line (take fork_num (looks (toy_anon 7) (toy_anon-IsFamily 7) 6 family)))
            ++ (printf "* END ANONYMOUS MODE\n" [] ∷ []))
          ++ map terminate_line pids)
unfolding toy_anon-IsFamily
do_anon_reaps_example =
    do_anon_reaps (toy_anon 7) (toy_anon-IsFamily 7) 6 (pos 64) world world.os world.os refl refl
      refl refl ((6, refl), ((6, refl), ((6, refl), ((6, refl), ((6, refl), tt))))) five_write
