-- ===== src/Tcp/Hello/Request.antt =====
-- The inner loop of the server of 2.hello_world: the request in the buffer.
use linux_programming_exampl.Prelude.{
  ℕ, zero, suc, ◌+◌, ◌≤◌, ◌<◌, ◌≡◌, ◌≢◌, refl, sym, ap, ◌∙◌, ℤ, some, List, [], ◌∷◌, ◌++◌,
  append-nil, append_assoc, arith, length, take,
}
use linux_programming_exampl.Program.{World, moved}
use linux_programming_exampl.CMemory.{c_str, overwrite}
use linux_programming_exampl.CMemory.Laws.{NoZero, length-overwrite}
use linux_programming_exampl.CMemory.Buffers.{
  NoZero-append, c_str-overwrite_zero, take-overwrite_more,
}
use linux_programming_exampl.Tcp.Kernel.{TcpOs, Serves, View, connected, bufsiz}
use linux_programming_exampl.Tcp.Hello.{read_line}

-- A word: no byte of it ends a line or is skipped.
abbrev pub IsWord : List ℕ → Type 0
IsWord [] = Unit
IsWord (b ∷ m) = (b ≢ 0) × (b ≢ b'\n') × (b ≢ b'\r') × IsWord m

module _ (K : TcpOs) (C : Serves K) where
  -- One byte is read at a time.
  read_one :
      (fd : ℤ) (b : ℕ) (rest o : List ℕ) (s : K.State)
      → (C.view s).current ≡ connected fd (b ∷ rest) o
      → ((K.read fd 1 s).0 ≡ some (b ∷ []))
        × (C.view (K.read fd 1 s).1 ≡ record (C.view s) { current = connected fd rest o })
  read_one fd b rest o s c = pick (C.reads fd 0 s (b ∷ rest) o c)
    where
      pick :
          (bytes : List ℕ) × (rest' : List ℕ) × ((K.read fd 1 s).0 ≡ some bytes)
            × (length bytes ≤ 1)
            × (b ∷ rest ≡ bytes ++ rest')
            × (length bytes ≡ 0 → b ∷ rest ≡ [])
            × (C.view (K.read fd 1 s).1 ≡ record (C.view s) { current = connected fd rest' o })
          → ((K.read fd 1 s).0 ≡ some (b ∷ []))
            × (C.view (K.read fd 1 s).1 ≡ record (C.view s) { current = connected fd rest o })
      pick ([], r, got, within, cut, at_end, v) = absurd (ground (arith, at_end refl))
      pick (x ∷ [], r, got, within, cut, at_end, v) =
          let same : b ≡ x = cc in
          let tail : rest ≡ r = cc in
          (
            got ∙ ap (λ (y : ℕ). some (y ∷ [])) (sym same),
            v ∙ ap (λ (l : List ℕ). record (C.view s) { current = connected fd l o }) (sym tail),
          )
      pick (x ∷ y ∷ l, r, got, within, cut, at_end, v) = absurd (omega arith)

  -- A word and a zero byte are read up to that byte, with as many rounds as bytes, and are then the
  -- string in the buffer behind what was there.
  pub read_line_total :
      (rounds fuel : ℕ) (fd : ℤ) (m rest o buf : List ℕ) (n : ℕ) (w : World K.State)
      → length m < rounds
      → IsWord m
      → n + length m < bufsiz
      → length buf ≡ bufsiz
      → NoZero (take n buf)
      → (C.view w.os).current ≡ connected fd (m ++ (0 ∷ rest)) o
      → (buf' : List ℕ) × (s : K.State) × (read_line K fuel rounds fd buf n w
          ≡ some (buf', moved w s))
        × (length buf' ≡ bufsiz)
        × (c_str buf' ≡ take n buf ++ m)
        × ((C.view s).current ≡ connected fd rest o)
        × ((C.view s).pending ≡ (C.view w.os).pending)
        × ((C.view s).answered ≡ (C.view w.os).answered)
  unfolding read_line
  read_line_total zero fuel fd m rest o buf n w few word room len done c = absurd (omega arith)
  read_line_total (suc rounds) fuel fd [] rest o buf n w few word room len done c =
      let (got, v) = read_one fd 0 rest o w.os c in
      (
        overwrite buf n (0 ∷ []),
        (K.read fd 1 w.os).1,
        ground (arith, got),
        length-overwrite buf n (0 ∷ []) (omega arith) ∙ len,
        c_str-overwrite_zero buf n done ∙ sym (append-nil (take n buf)),
        ap (λ (x : View). x.current) v,
        ap (λ (x : View). x.pending) v,
        ap (λ (x : View). x.answered) v,
      )
  read_line_total (suc rounds) fuel fd (b ∷ m) rest o buf n w few word room len done c =
      let (got, v) = read_one fd b (m ++ (0 ∷ rest)) o w.os c in
      let s1 : K.State = (K.read fd 1 w.os).1 in
      let buf1 : List ℕ = overwrite buf n (b ∷ []) in
      let len1 : length buf1 ≡ bufsiz = length-overwrite buf n (b ∷ []) (omega arith) ∙ len in
      let front : take (n + 1) buf1 ≡ take n buf ++ (b ∷ []) =
        take-overwrite_more buf n (b ∷ []) (omega arith) in
      let done1 : NoZero (take (n + 1) buf1) =
        rw front (NoZero-append (take n buf) (b ∷ []) done (word.0, tt)) in
      let (buf2, s2, run, len2, str, c2, p2, a2) =
        read_line_total rounds fuel fd m rest o buf1 (n + 1) (moved w s1) (omega arith) word.3
          (omega arith) len1 done1 (ap (λ (x : View). x.current) v) in
      (
        buf2,
        s2,
        ground (arith, got, word.0, word.1, word.2, run),
        len2,
        str ∙ ap (λ (l : List ℕ). l ++ m) front ∙ append_assoc (take n buf) (b ∷ []) m,
        c2,
        p2 ∙ ap (λ (x : View). x.pending) v,
        a2 ∙ ap (λ (x : View). x.answered) v,
      )
