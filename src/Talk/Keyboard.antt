-- ===== src/Talk/Keyboard.antt =====
-- What `do_keyboard` of the talk server sends.
use linux_programming_exampl.Prelude.{
  ℕ, zero, suc, ◌≤◌, ◌<◌, ◌≡◌, refl, sym, ap, ◌∙◌, ℤ, pos, Bool, true, false, some, List, [], ◌∷◌,
  ◌++◌, length, take, drop, arith, append_assoc, take-append_left,
}
use linux_programming_exampl.Program.{World, moved}
use linux_programming_exampl.CMemory.{c_str, bytes_eq, overwrite}
use linux_programming_exampl.CMemory.Laws.{
  NoZero, c_str-take, overwrite_zero, length-overwrite, take-overwrite,
}
use linux_programming_exampl.Tcp.Kernel.{TcpOs, bufsiz, IsBuffer}
use linux_programming_exampl.Udp.Broadcast.{strncmp_eq}
use linux_programming_exampl.Talk.{do_keyboard, sigquit}

-- What the user will type, what the peer was sent, and the processes that were sent a signal.
pub record Typing : Type 0 where
  pub typed : List (List ℕ)
  pub sent : List ℕ
  pub killed : List ℤ

abbrev pub typing : List (List ℕ) → List ℕ → List ℤ → Typing
typing t o k = record { typed = t; sent = o; killed = k }

-- A terminal that gives a line to each `read`, and a peer that takes all that it is sent.
pub record IsTerminal (K : TcpOs) (kill : ℤ → ℕ → K.State → K.State) (sock : ℤ) : Type 1 where
  pub view : K.State → Typing
  pub types :
      (s : K.State) (line : List ℕ) (t : List (List ℕ)) (o : List ℕ) (k : List ℤ)
      → view s ≡ typing (line ∷ t) o k
      → length line ≤ bufsiz
      → ((K.read (pos 0) bufsiz s).0 ≡ some line)
        × (view (K.read (pos 0) bufsiz s).1 ≡ typing t o k)
  pub sends :
      (buf : List ℕ) (n : ℕ) (s : K.State) (t : List (List ℕ)) (o : List ℕ) (k : List ℤ)
      → view s ≡ typing t o k
      → n ≤ length buf
      → ((K.write sock buf n s).0 ≡ pos n)
        × (view (K.write sock buf n s).1 ≡ typing t (o ++ take n buf) k)
  pub kills :
      (pid : ℤ) (sig : ℕ) (s : K.State) (t : List (List ℕ)) (o : List ℕ) (k : List ℤ)
      → view s ≡ typing t o k
      → view (kill pid sig s) ≡ typing t o (k ++ (pid ∷ []))

-- A line that fills the four bytes that are compared.
abbrev pub IsLong : List ℕ → Type 0
IsLong line = NoZero line × (4 ≤ length line) × (length line ≤ bufsiz)

abbrev pub begins_with : List ℕ → List ℕ → Bool
begins_with quit line = bytes_eq (take 4 line) (take 4 (c_str quit))

abbrev pub AllLong : List ℕ → List (List ℕ) → Type 0
AllLong quit [] = Unit
AllLong quit (line ∷ l) = IsLong line × (begins_with quit line ≡ false) × AllLong quit l

abbrev pub concat : List (List ℕ) → List ℕ
concat [] = []
concat (line ∷ l) = line ++ concat l

c_str_all : (m : List ℕ) → NoZero m → c_str m ≡ m
unfolding c_str
c_str_all [] h = refl
c_str_all (b ∷ m) h = ground (arith, c_str_all m h.1)

NoZero-take : (n : ℕ) (m : List ℕ) → NoZero m → NoZero (take n m)
NoZero-take zero m h = tt
NoZero-take (suc n) [] h = tt
NoZero-take (suc n) (b ∷ m) h = (h.0, NoZero-take n m h.1)

-- What an older line left in the array does not count.
strncmp_eq-overwrite :
    (sbuf line quit : List ℕ)
    → IsLong line
    → strncmp_eq (overwrite sbuf 0 line) quit 4 ≡ begins_with quit line
unfolding strncmp_eq
strncmp_eq-overwrite sbuf line quit (no_zero, four, fits) =
    ap (λ (l : List ℕ). bytes_eq l (take 4 (c_str quit)))
      (sym (c_str-take 4 (overwrite sbuf 0 line))
        ∙ ap (λ (l : List ℕ). c_str (take 4 l)) (overwrite_zero sbuf line)
        ∙ ap c_str (take-append_left 4 line (drop (length line) sbuf) four)
        ∙ c_str_all (take 4 line) (NoZero-take 4 line no_zero))

module _ (K : TcpOs) (kill : ℤ → ℕ → K.State → K.State) (sock : ℤ)
    (C : IsTerminal K kill sock) where
  -- When the lines that are typed have four bytes or more each and fit into the array, `do_keyboard`
  -- sends all of them to the peer, in order, up to the first one that begins with the word for
  -- the end, which it sends as well. It then sends one signal to the other process and returns.
  pub do_keyboard_forwards :
      (quit : List ℕ) (pid : ℤ) (rounds : ℕ) (l rest : List (List ℕ)) (last sbuf o : List ℕ)
      (k : List ℤ) (w : World K.State)
      → length l < rounds
      → AllLong quit l
      → IsLong last
      → begins_with quit last ≡ true
      → IsBuffer sbuf
      → C.view w.os ≡ typing (l ++ (last ∷ rest)) o k
      → (s : K.State) × (do_keyboard K kill quit pid rounds sock sbuf w ≡ some (tt, moved w s))
        × (C.view s ≡ typing rest (o ++ (concat l ++ last)) (k ++ (pid ∷ [])))
  unfolding do_keyboard
  do_keyboard_forwards quit pid zero l rest last sbuf o k w few lines long ends len v =
      absurd (omega arith)
  do_keyboard_forwards quit pid (suc rounds) [] rest last sbuf o k w few lines (no_zero, four, fits)
        ends len v =
      let n : ℕ = length last in
      let buf1 : List ℕ = overwrite sbuf 0 last in
      let len1 : length buf1 ≡ bufsiz = length-overwrite sbuf 0 last (omega arith) ∙ len in
      let (got, v1) = C.types w.os last rest o k v fits in
      let s1 : K.State = (K.read (pos 0) bufsiz w.os).1 in
      let (sent, v2) = C.sends buf1 n s1 rest o k v1 (omega arith) in
      let s2 : K.State = (K.write sock buf1 n s1).1 in
      let stop : strncmp_eq buf1 quit 4 ≡ true =
        strncmp_eq-overwrite sbuf last quit (no_zero, four, fits) ∙ ends in
      (
        kill pid sigquit s2,
        ground (arith, got, four, sent, stop),
        C.kills pid sigquit s2 rest (o ++ take n buf1) k v2
            ∙ ap (λ (x : List ℕ). typing rest (o ++ x) (k ++ (pid ∷ [])))
                (take-overwrite sbuf last),
      )
  do_keyboard_forwards quit pid (suc rounds) (line ∷ l) rest last sbuf o k w few
        ((no_zero, four, fits), goes_on, lines) long ends len v =
      let n : ℕ = length line in
      let buf1 : List ℕ = overwrite sbuf 0 line in
      let len1 : length buf1 ≡ bufsiz = length-overwrite sbuf 0 line (omega arith) ∙ len in
      let (got, v1) = C.types w.os line (l ++ (last ∷ rest)) o k v fits in
      let s1 : K.State = (K.read (pos 0) bufsiz w.os).1 in
      let (sent, v2) = C.sends buf1 n s1 (l ++ (last ∷ rest)) o k v1 (omega arith) in
      let s2 : K.State = (K.write sock buf1 n s1).1 in
      let v2' : C.view s2 ≡ typing (l ++ (last ∷ rest)) (o ++ line) k =
        v2
        ∙ ap (λ (x : List ℕ). typing (l ++ (last ∷ rest)) (o ++ x) k) (take-overwrite sbuf line) in
      let more : strncmp_eq buf1 quit 4 ≡ false =
        strncmp_eq-overwrite sbuf line quit (no_zero, four, fits) ∙ goes_on in
      let (s, run, v3) =
        do_keyboard_forwards quit pid rounds l rest last buf1 (o ++ line) k (moved w s2)
          (omega arith) lines long ends len1 v2' in
      (
        s,
        ground (arith, got, four, sent, more, run),
        v3
            ∙ ap (λ (x : List ℕ). typing rest x (k ++ (pid ∷ [])))
                (append_assoc o line (concat l ++ last)
                  ∙ ap (λ (x : List ℕ). o ++ x) (sym (append_assoc line (concat l) last))),
      )
