-- ===== src/Net/Names/Lists.antt =====
-- The services that getservent.c shows.
use linux_programming_exampl.Prelude.{
  ℕ, zero, suc, ◌<◌, ◌≡◌, sym, ap, ◌∙◌, pos, none, some, List, [], ◌∷◌, ◌++◌, arith, length,
  append-nil, append_assoc, map,
}
use linux_programming_exampl.Program.{World, Output, int, text, printf, moved, said}
use linux_programming_exampl.Net.Names.{
  NetDb, Servent, print_aliases, print_servent, getservent_main,
}

alias_line : List ℕ → Output
alias_line a = printf "%s " (text a ∷ [])

print_aliases_total :
    {S : Type 0} (l : List (List ℕ)) (w : World S)
    → print_aliases l w ≡ some (tt, record { os = w.os; out = w.out ++ map alias_line l })
unfolding print_aliases alias_line
print_aliases_total [] w =
    ap (λ (o : List Output). some (tt, record { os = w.os; out = o })) (sym (append-nil w.out))
print_aliases_total (a ∷ l) w =
    print_aliases_total l (said w (alias_line a))
    ∙ ap (λ (o : List Output). some (tt, record { os = w.os; out = o }))
        (append_assoc w.out (alias_line a ∷ []) (map alias_line l))

-- The database: the services that are still to be read.
record IsDatabase (K : NetDb) : Type 1 where
  pub services : K.State → List Servent
  pub next :
      (s : K.State) (p : Servent) (l : List Servent)
      → services s ≡ p ∷ l
      → ((K.getservent s).0 ≡ some p) × (services (K.getservent s).1 ≡ l)
  pub at_end : (s : K.State) → services s ≡ [] → (K.getservent s).0 ≡ none

module _ (K : NetDb) (C : IsDatabase K) where
  -- The lines of one service.
  abbrev service_lines : Servent → List Output
  service_lines p =
      printf "%s \t %d/%s \t" (text p.s_name ∷ int (pos (K.ntohs p.s_port)) ∷ text p.s_proto ∷ [])
      ∷ (map alias_line p.s_aliases ++ (printf "\n" [] ∷ []))

  abbrev all_lines : List Servent → List Output
  all_lines [] = []
  all_lines (p ∷ l) = service_lines p ++ all_lines l

  print_servent_total :
      (p : Servent) (w : World K.State)
      → print_servent K p w ≡ some (tt, record { os = w.os; out = w.out ++ service_lines p })
  unfolding print_servent
  print_servent_total p w =
      let head : Output =
        printf "%s \t %d/%s \t"
          (text p.s_name ∷ int (pos (K.ntohs p.s_port)) ∷ text p.s_proto ∷ []) in
      let lines : List Output = map alias_line p.s_aliases in
      let shown = print_aliases_total p.s_aliases (said w head) in
      let out : ((w.out ++ (head ∷ [])) ++ lines) ++ (printf "\n" [] ∷ [])
          ≡ w.out ++ service_lines p =
        append_assoc (w.out ++ (head ∷ [])) lines (printf "\n" [] ∷ [])
        ∙ append_assoc w.out (head ∷ []) (lines ++ (printf "\n" [] ∷ [])) in
      ground (arith, shown, out)

  -- With more rounds than services, all services are shown with all their aliases, in order, and the
  -- program returns.
  getservent_main_total :
      (rounds : ℕ) (l : List Servent) (w : World K.State)
      → length l < rounds
      → C.services w.os ≡ l
      → (s : K.State) × (getservent_main K rounds w
          ≡ some (pos 0, record { os = s; out = w.out ++ all_lines l }))
  unfolding getservent_main
  getservent_main_total zero l w few v = absurd (omega arith)
  getservent_main_total (suc rounds) [] w few v =
      ((K.getservent w.os).1, ground (arith, C.at_end w.os v, append-nil w.out))
  getservent_main_total (suc rounds) (p ∷ l) w few v =
      let (got, v1) = C.next w.os p l v in
      let s1 : K.State = (K.getservent w.os).1 in
      let w1 : World K.State = record { os = s1; out = w.out ++ service_lines p } in
      let (s, run) = getservent_main_total rounds l w1 (omega arith) v1 in
      (
        s,
        ground (
          arith,
          got,
          print_servent_total p (moved w s1),
          run,
          append_assoc w.out (service_lines p) (all_lines l),
        ),
      )
