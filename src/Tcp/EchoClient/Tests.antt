-- ===== src/Tcp/EchoClient/Tests.antt =====
-- A terminal, and a connection that gives the bytes that were sent one at a time.
use linux_programming_exampl.Prelude.{
  ℕ, suc, ◌≤◌, ◌<◌, ◌≡◌, refl, ℤ, pos, minus_one, int_eq, Option, none, some, List, [], ◌∷◌, ◌++◌,
  arith, length, take, replicate, length-replicate, true, false,
}
use linux_programming_exampl.Program.{World, printf}
use linux_programming_exampl.CMemory.{codes, bytes_eq}
use linux_programming_exampl.Tcp.Kernel.{TcpOs, bufsiz}
use linux_programming_exampl.Tcp.EchoClient.{client_main}
use linux_programming_exampl.Tcp.EchoClient.Session.{Session, session, AllLines, Echoes, transcript}
use linux_programming_exampl.Tcp.EchoClient.Refinement.{quit, client_main_echoes}

abbrev get_line : Session → Option (List ℕ) × Session
get_line s = elim s.typed [ [] ↦ (some [], s) | line ∷ l ↦ (some line, session l s.echoed) ]

abbrev get_byte : Session → Option (List ℕ) × Session
get_byte s = elim s.echoed [ [] ↦ (some [], s) | b ∷ e ↦ (some (b ∷ []), session s.typed e) ]

abbrev read_from : ℤ → Session → Option (List ℕ) × Session
read_from fd s = elim (int_eq fd (pos 0)) [ true ↦ get_line s | false ↦ get_byte s ]

abbrev echo : TcpOs
echo = record {
  State = Session;
  socket = λ s. (pos 3, s);
  bind = λ fd port s. (minus_one, s);
  listen = λ fd n s. (minus_one, s);
  accept = λ fd s. none;
  connect = λ fd a p s. (pos 0, s);
  read = λ fd n s. read_from fd s;
  write = λ fd buf n s. (pos n, session s.typed (s.echoed ++ take n buf));
  close = λ fd s. (pos 0, s);
  fork = λ s. (minus_one, s);
  scanf = λ s. ([], s);
  readdir = λ s. (none, s);
}

echo_reads :
    (s : Session) (t : List (List ℕ)) (e : List ℕ) (n : ℕ)
    → s ≡ session t e
    → 0 < length e
    → (bytes : List ℕ) × (rest : List ℕ) × ((get_byte s).0 ≡ some bytes)
      × (e ≡ bytes ++ rest)
      × (0 < length bytes)
      × (length bytes ≤ suc n)
      × ((get_byte s).1 ≡ session t rest)
echo_reads s t [] n v h = absurd (omega arith)
echo_reads s t (b ∷ e) n v h = (b ∷ [], e, rw v refl, refl, omega arith, omega arith, rw v refl)

echo-Echoes : Echoes echo (pos 3)
echo-Echoes = record {
  view = λ s. s;
  types = λ s line l e v h. (rw v refl, rw v refl);
  echoes = λ s t e buf n v h. (refl, rw v refl);
  reads = λ s t e n v h. echo_reads s t e n v h;
}

abbrev lines : List (List ℕ)
lines = codes "hi\n" ∷ codes "you\n" ∷ []

abbrev before : World Session
before = record { os = session (lines ++ (quit ∷ (codes "late\n" ∷ []))) []; out = [] }

abbrev zeros : List ℕ
zeros = replicate bufsiz 0

client_main_echoes_example :
    (s : Session) × (client_main echo 5 3 zeros zeros before
      ≡ some (
        pos 0,
        record { os = s; out = (printf "Success Connection\n" [] ∷ []) ++ transcript lines },
      ))
    × (s ≡ session (codes "late\n" ∷ []) [])
unfolding echo-Echoes bytes_eq
client_main_echoes_example =
    client_main_echoes echo (pos 3) echo-Echoes 5 3 lines (codes "late\n" ∷ []) zeros zeros before 0
      before.os before.os refl refl refl (omega arith) all_lines (length-replicate {A = ℕ} bufsiz 0)
      (length-replicate {A = ℕ} bufsiz 0)
  where
    all_lines : AllLines 5 lines
    all_lines = grind arith
