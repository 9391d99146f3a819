-- ===== src/Echo/Service.antt =====
-- What the echo service sends back.
use linux_programming_exampl.Prelude.{
  ℕ, zero, suc, ◌+◌, ◌<◌, ◌≡◌, refl, sym, ap, ◌∙◌, inl, inr, ℤ, none, some, List, [], ◌++◌,
  append-nil, append_assoc, arith, ◌==◌, ==→eq, Bool-cases, length, length-append,
}
use linux_programming_exampl.Program.{World, printf, moved, said}
use linux_programming_exampl.CMemory.{overwrite}
use linux_programming_exampl.CMemory.Laws.{take-overwrite, length-overwrite}
use linux_programming_exampl.Echo.{do_echo, size_max}
use linux_programming_exampl.Echo.Kernel.{EchoOs, IsConnection, bufsiz}

module _ (K : EchoOs) (conn_sock : ℤ) (C : IsConnection K conn_sock) where
  -- When the peer sends fewer bytes than there are rounds and then closes its side, `do_echo` returns
  -- and has sent back exactly these bytes, in order, however `read` cuts them into pieces.
  pub do_echo_total :
      (rounds : ℕ) (buf : List ℕ) (w : World K.State)
      → length (C.input w.os) < rounds
      → length buf ≡ bufsiz
      → (w' : World K.State) × (do_echo K rounds conn_sock buf w ≡ some (tt, w'))
        × (C.output w'.os ≡ C.output w.os ++ C.input w.os)
  unfolding do_echo
  do_echo_total zero buf w few len = absurd (omega arith)
  do_echo_total (suc rounds) buf w few len =
      let (bytes, got, within, cut, same, at_end) = C.reads w.os in
      let s1 : K.State = (K.read conn_sock bufsiz w.os).1 in
      elim (Bool-cases (length bytes == 0)) [
        | inl stop ↦
            let nothing : C.input w.os ≡ [] = at_end (==→eq (length bytes) 0 stop) in
            (
              moved w s1,
              ground (arith, got, stop),
              same
                  ∙ sym (append-nil (C.output w.os))
                  ∙ ap (λ (l : List ℕ). C.output w.os ++ l) (sym nothing),
            )
        | inr more ↦
            let buf' : List ℕ = overwrite buf 0 bytes in
            let len' : length buf' ≡ bufsiz = length-overwrite buf 0 bytes (omega arith) ∙ len in
            let s2 : K.State = (K.write conn_sock buf' (length bytes) s1).1 in
            let (sent, kept) = C.writes buf' (length bytes) s1 (omega arith) in
            let count : length (C.input w.os) ≡ length bytes + length (C.input s1) =
              ap length cut ∙ length-append bytes (C.input s1) in
            let nonzero : 0 < length bytes = ground (arith, more) in
            let (w', run, out) =
              do_echo_total rounds buf' (said (moved w s2) (printf "child\n" []))
                (omega (arith, ap length kept)) len' in
            (
              w',
              ground (arith, got, more, run),
              out
                  ∙ ap (λ (l : List ℕ). C.output s2 ++ l) kept
                  ∙ ap (λ (l : List ℕ). l ++ C.input s1)
                      (sent
                        ∙ ap (λ (l : List ℕ). C.output s1 ++ l) (take-overwrite buf bytes)
                        ∙ ap (λ (l : List ℕ). l ++ bytes) same)
                  ∙ append_assoc (C.output w.os) bytes (C.input s1)
                  ∙ ap (λ (l : List ℕ). C.output w.os ++ l) (sym cut),
            )
      ]

module _ (K : EchoOs) where
  -- When every `read` on the connection fails, `do_echo` does not return, whatever the number of
  -- rounds: it takes -1 for a number of bytes and goes on.
  pub do_echo_spins :
      (rounds : ℕ) (conn_sock : ℤ) (buf : List ℕ) (w : World K.State)
      → ((s : K.State) → (K.read conn_sock bufsiz s).0 ≡ none)
      → do_echo K rounds conn_sock buf w ≡ none
  unfolding do_echo
  do_echo_spins zero conn_sock buf w fails = refl
  do_echo_spins (suc rounds) conn_sock buf w fails =
      let s1 : K.State = (K.read conn_sock bufsiz w.os).1 in
      let s2 : K.State = (K.write conn_sock buf size_max s1).1 in
      ground (
        arith,
        fails w.os,
        do_echo_spins rounds conn_sock buf (said (moved w s2) (printf "child\n" [])) fails,
      )
