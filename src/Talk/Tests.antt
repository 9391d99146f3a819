-- ===== src/Talk/Tests.antt =====
-- A terminal with three lines, and the theorem on it.
use linux_programming_exampl.Prelude.{
  ℕ, ◌≡◌, refl, ap, ℤ, pos, minus_one, some, none, [], ◌∷◌, ◌++◌, arith, take, drop, get_or,
  replicate, length-replicate,
}
use linux_programming_exampl.Program.{World, moved}
use linux_programming_exampl.CMemory.{codes, c_str, bytes_eq}
use linux_programming_exampl.Tcp.Kernel.{TcpOs, bufsiz}
use linux_programming_exampl.Talk.{do_keyboard}
use linux_programming_exampl.Talk.Keyboard.{Typing, typing, IsTerminal, do_keyboard_forwards}

abbrev terminal : TcpOs
terminal = record {
  State = Typing;
  socket = λ s. (minus_one, s);
  bind = λ fd port s. (minus_one, s);
  listen = λ fd n s. (minus_one, s);
  accept = λ fd s. none;
  connect = λ fd a p s. (minus_one, s);
  read = λ fd n s. (some (get_or s.typed 0 []), typing (drop 1 s.typed) s.sent s.killed);
  write = λ fd buf n s. (pos n, typing s.typed (s.sent ++ take n buf) s.killed);
  close = λ fd s. (pos 0, s);
  fork = λ s. (minus_one, s);
  scanf = λ s. ([], s);
  readdir = λ s. (none, s);
}

abbrev note_kill : ℤ → ℕ → Typing → Typing
note_kill pid sig s = typing s.typed s.sent (s.killed ++ (pid ∷ []))

terminal-IsTerminal : IsTerminal terminal note_kill (pos 4)
terminal-IsTerminal = record {
  view = λ s. s;
  types = λ s line t o k v h. (
    ap (λ (r : Typing). some (get_or r.typed 0 [])) v,
    ap (λ (r : Typing). typing (drop 1 r.typed) r.sent r.killed) v,
  );
  sends = λ buf n s t o k v h.
      (refl, ap (λ (r : Typing). typing r.typed (r.sent ++ take n buf) r.killed) v);
  kills = λ pid sig s t o k v. ap (note_kill pid sig) v;
}

abbrev before : World Typing
before = record {
  os = typing (codes "hello\n" ∷ codes "quit\n" ∷ codes "late\n" ∷ []) [] [];
  out = [];
}

do_keyboard_forwards_example :
    (s : Typing) × (do_keyboard terminal note_kill
        (codes "quit")
        (pos 77)
        2
        (pos 4)
        (replicate bufsiz 0)
        before
      ≡ some (tt, moved before s))
    × (s ≡ typing (codes "late\n" ∷ []) (codes "hello\nquit\n") (pos 77 ∷ []))
unfolding terminal-IsTerminal bytes_eq c_str
do_keyboard_forwards_example =
    do_keyboard_forwards terminal note_kill (pos 4) terminal-IsTerminal (codes "quit") (pos 77) 2
      (codes "hello\n" ∷ []) (codes "late\n" ∷ []) (codes "quit\n") (replicate bufsiz 0) [] []
      before (omega arith) ((grind arith, omega arith, omega arith), refl, tt)
      (grind arith, omega arith, omega arith) refl (length-replicate {A = ℕ} bufsiz 0) refl
