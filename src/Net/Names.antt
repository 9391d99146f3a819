-- ===== src/Net/Names.antt =====
-- tcp_ip_programming/just_study/5.getservent/getservent.c and 7.transport_address/gethostbyname.c
pub mod Lists
use linux_programming_exampl.Prelude.{
  ℕ, zero, suc, ℤ, pos, minus_one, Option, none, some, List, [], ◌∷◌,
}
use linux_programming_exampl.Program.{
  Prog, Status, running, returned, int, text, printf, pure, stuck, ◌>>=◌, ◌>>◌, print, sys,
}
use linux_programming_exampl.CMemory.{codes}

-- `struct servent`, with its lists up to the null pointer.
pub record Servent : Type 0 where
  pub s_name : List ℕ
  pub s_port : ℕ
  pub s_proto : List ℕ
  pub s_aliases : List (List ℕ)

-- `struct hostent`. An address of `h_addr_list` is the number of its four bytes in the order of the
-- network.
pub record Hostent : Type 0 where
  pub h_name : List ℕ
  pub h_aliases : List (List ℕ)
  pub h_addrtype : ℤ
  pub h_length : ℤ
  pub h_addr_list : List ℕ

-- netdb.h: `none` is the null pointer. The functions on numbers are those of arpa/inet.h.
pub record NetDb : Type 1 where
  pub State : Type 0
  pub getservent : State → Option Servent × State
  pub gethostbyname : List ℕ → State → Option Hostent × State
  pub ntohs : ℕ → ℕ
  pub ntohl : ℕ → ℕ
  pub inet_ntoa : ℕ → List ℕ

module _ {S : Type 0} where
  pub print_aliases : List (List ℕ) → Prog S (Unit {0})
  print_aliases [] = pure tt
  print_aliases (a ∷ l) = do print (printf "%s " (text a ∷ [])); print_aliases l

module _ (K : NetDb) where
  pub print_servent : Servent → Prog K.State (Unit {0})
  print_servent p = do
    print (
        printf "%s \t %d/%s \t"
          (text p.s_name ∷ int (pos (K.ntohs p.s_port)) ∷ text p.s_proto ∷ []))
    print_aliases p.s_aliases
    print (printf "\n" [])

  -- getservent.c, with `rounds` rounds of the loop.
  pub getservent_main : ℕ → Prog K.State ℤ
  getservent_main zero = stuck
  getservent_main (suc rounds) = do
    p ← sys K.getservent
    elim p [ none ↦ pure (pos 0) | some servent ↦ do print_servent servent; getservent_main rounds ]

  pub print_host_aliases : List (List ℕ) → Prog K.State (Unit {0})
  print_host_aliases [] = pure tt
  print_host_aliases (a ∷ l) = do
    print (printf "aliases = %s\n" (text a ∷ []))
    print_host_aliases l

  pub print_addresses : List ℕ → Prog K.State (Unit {0})
  print_addresses [] = pure tt
  print_addresses (a ∷ l) = do
    print (printf "address = %s(0x%x)\n" (text (K.inet_ntoa a) ∷ int (pos (K.ntohl a)) ∷ []))
    print_addresses l

  pub gethostbyname_main : Prog K.State ℤ
  gethostbyname_main = do
    found ← sys (K.gethostbyname (codes "www.google.com"))
    elim found [
      | none ↦ do print (printf "gethostbyname() error - check network\n" []); pure minus_one
      | some host ↦ do
        print (printf "official name = %s \n" (text host.h_name ∷ []))
        print_host_aliases host.h_aliases
        print (printf "address type = %d\n" (int host.h_addrtype ∷ []))
        print (printf "address length = %d\n" (int host.h_length ∷ []))
        print_addresses host.h_addr_list
        pure (pos 0)
    ]
