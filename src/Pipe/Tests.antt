-- ===== src/Pipe/Tests.antt =====
-- A fair schedule, a machine with a FIFO, and the theorems on them.
use linux_programming_exampl.Prelude.{
  ℕ, suc, ◌≡◌, refl, ℤ, pos, minus_one, int_eq, int_eq_refl, Bool, false, Option, none, ap, arith,
  if◌then◌else◌, some, List, [], ◌∷◌, ◌++◌, take, drop, replicate, length-replicate,
}
use linux_programming_exampl.Program.{World, int, text, printf}
use linux_programming_exampl.CMemory.{codes}
use linux_programming_exampl.Pipe.Process.{
  exit, pair, channels, local, Who, the_parent, the_child, run, IsFair, over, period,
}
use linux_programming_exampl.Pipe.Kernel.{PipeOs}
use linux_programming_exampl.Pipe.Interactive
use linux_programming_exampl.Pipe.Interactive.Schedules.{interactive_schedules}
use linux_programming_exampl.Pipe.Fifo
use linux_programming_exampl.Pipe.Fifo.RoundTrip.{IsFifo, fifo, message, main_r-main_s}

abbrev round : List Who → List Who
round l = the_parent ∷ the_child ∷ l

abbrev seven : List Who
seven = round (round (round (round (round (round (round []))))))

IsFair-round : {n : ℕ} {l : List Who} → IsFair n l → IsFair (suc n) (round l)
IsFair-round {l = l} f = period [] [] l f

interactive_schedules_example :
    run seven (Interactive.main (replicate 30 1) (replicate 30 2))
    ≡ pair
        (channels [] [])
        (local
          (exit (pos 0))
          (printf "[Parent] output: %s\n" (text (codes "Who are you?") ∷ []) ∷ []))
        (local
          (exit (pos 0))
          (printf "[Child] output: %s\n" (text (codes "Thank you for your message") ∷ []) ∷ []))
interactive_schedules_example = interactive_schedules (replicate 30 1) (replicate 30 2) seven (
    IsFair-round (
      IsFair-round
        (IsFair-round (IsFair-round (IsFair-round (IsFair-round (IsFair-round (over []))))))))

-- A machine where the FIFO has the descriptor 3.
abbrev remove : Fifo.RoundTrip.Fifo → ℤ × Fifo.RoundTrip.Fifo
remove s = elim s.content [
  | none ↦ (minus_one, s)
  | some old ↦ (pos 0, record s { content = none })
]

abbrev make : Fifo.RoundTrip.Fifo → ℤ × Fifo.RoundTrip.Fifo
make s = elim s.content [
  | none ↦ (pos 0, record s { content = some [] })
  | some old ↦ (minus_one, s)
]

abbrev is_open : ℤ → Fifo.RoundTrip.Fifo → Bool
is_open fd s = elim s.opened [ none ↦ false | some x ↦ int_eq x fd ]

abbrev in_fifo : Fifo.RoundTrip.Fifo → List ℕ
in_fifo s = elim s.content [ none ↦ [] | some c ↦ c ]

abbrev read_open : ℤ → ℕ → Fifo.RoundTrip.Fifo → Option (List ℕ) × Fifo.RoundTrip.Fifo
read_open fd n s =
    if is_open fd s
    then (some (take n (in_fifo s)), record s { content = some (drop n (in_fifo s)) })
    else (none, s)

abbrev write_open : ℤ → List ℕ → ℕ → Fifo.RoundTrip.Fifo → ℤ × Fifo.RoundTrip.Fifo
write_open fd buf n s =
    if is_open fd s
    then (pos n, record s { content = some (in_fifo s ++ take n buf) })
    else (minus_one, s)

abbrev close_open : ℤ → Fifo.RoundTrip.Fifo → ℤ × Fifo.RoundTrip.Fifo
close_open fd s = if is_open fd s then (pos 0, record s { opened = none }) else (minus_one, s)

abbrev machine : PipeOs
machine = record {
  State = Fifo.RoundTrip.Fifo;
  pipe = λ s. ((minus_one, pos 0, pos 0), s);
  fork = λ s. (minus_one, s);
  unlink = λ p s. remove s;
  mkfifo = λ p s. make s;
  open_write = λ p s. some (pos 3, record s { opened = some (pos 3) });
  open_read = λ p s. some (pos 3, record s { opened = some (pos 3) });
  read = λ fd n s. some (read_open fd n s);
  write = λ fd buf n s. write_open fd buf n s;
  close = λ fd s. close_open fd s;
  getpid = λ s. pos 42;
}

machine-IsFifo : IsFifo machine
machine-IsFifo = record {
  view = λ s. s;
  unlinks = λ old s v. (
    ap (λ (x : Fifo.RoundTrip.Fifo). (remove x).0) v,
    ap (λ (x : Fifo.RoundTrip.Fifo). (remove x).1) v,
  );
  nothing_there = λ s v. (
    ap (λ (x : Fifo.RoundTrip.Fifo). (remove x).0) v,
    ap (λ (x : Fifo.RoundTrip.Fifo). (remove x).1) v,
  );
  makes = λ s v. (
    ap (λ (x : Fifo.RoundTrip.Fifo). (make x).0) v,
    ap (λ (x : Fifo.RoundTrip.Fifo). (make x).1) v,
  );
  makes_none = λ old s v. (
    ap (λ (x : Fifo.RoundTrip.Fifo). (make x).0) v,
    ap (λ (x : Fifo.RoundTrip.Fifo). (make x).1) v,
  );
  opens_write = λ c s v. (
    3,
    record s { opened = some (pos 3) },
    refl,
    ap (λ (x : Fifo.RoundTrip.Fifo). fifo x.content (some (pos 3))) v,
  );
  opens_read = λ c s v. (
    3,
    record s { opened = some (pos 3) },
    refl,
    ap (λ (x : Fifo.RoundTrip.Fifo). fifo x.content (some (pos 3))) v,
  );
  writes =
      λ fd c buf n s v h. (ground (arith, v, int_eq_refl fd), ground (arith, v, int_eq_refl fd));
  reads = λ fd c n s v h. (_, ground (arith, v, int_eq_refl fd), refl);
  closes = λ fd c s v. ground (arith, v, int_eq_refl fd);
}

-- An old FIFO that still holds a text.
abbrev old : World Fifo.RoundTrip.Fifo
old = record { os = fifo (some (codes "old")) none; out = [] }

abbrev ones : List ℕ
ones = replicate 1024 1

main_r-main_s_example :
    (w1 : World Fifo.RoundTrip.Fifo) × (s : Fifo.RoundTrip.Fifo) × (pid : ℤ) × (Fifo.main machine
        (codes "fifo" ∷ codes "s" ∷ [])
        ones
        old
      ≡ some (pos 0, w1))
    × (Fifo.main machine (codes "fifo" ∷ codes "r" ∷ []) [] w1
        ≡ some (
          pos 0,
          record {
            os = s;
            out = w1.out ++ (printf "[RECV](%u) %s\n" (int pid ∷ text message ∷ []) ∷ []);
          },
        ))
    × (s ≡ fifo (some []) none)
unfolding machine-IsFifo
main_r-main_s_example =
    main_r-main_s machine machine-IsFifo (some (codes "old")) (codes "fifo") ones [] old
      (length-replicate {A = ℕ} 1024 1) refl
