-- ===== src/Net/Order.antt =====
-- tcp_ip_programming/just_study/6.network_ordering: ordering.c and ntoh_hton.c
pub mod Network
use linux_programming_exampl.Prelude.{
  ℕ, ◌+◌, ◌*◌, ◌/◌, ◌%◌, ◌^◌, ℤ, pos, Bool, ◌==◌, ◌&&◌, List, [], ◌∷◌, if◌then◌else◌,
}
use linux_programming_exampl.Program.{Prog, int, printf, pure, ◌>>=◌, ◌>>◌, print}

-- The order of the bytes of a number in the memory of the machine.
pub data Endian : Type 0 where
  big : Endian
  little : Endian

-- The first and the second byte of a `short` in memory.
unfoldable pub bytes_of : Endian → ℕ → ℕ × ℕ
bytes_of big n = (n / 256 % 256, n % 256)
bytes_of little n = (n % 256, n / 256 % 256)

-- htons(3): the number whose bytes in memory are those of `n` with the high byte first.
unfoldable pub htons : Endian → ℕ → ℕ
htons big n = n % 2 ^ 16
htons little n = n % 256 * 256 + n / 256 % 256

abbrev pub host_data : ℕ
host_data = 4660

module _ {S : Type 0} where
  -- The name of the order, by the bytes `ch[0]` and `ch[1]`.
  pub print_order : ℕ × ℕ → Prog S (Unit {0}) → Prog S (Unit {0}) → Prog S (Unit {0})
  print_order (ch0, ch1) high_first low_first =
      if ch0 == 18 && ch1 == 52
      then high_first
      else if ch1 == 18 && ch0 == 52
      then low_first
      else pure tt

  abbrev pub print_bytes : ℕ × ℕ → Prog S (Unit {0})
  print_bytes (ch0, ch1) = print (printf "0x%x%x\n" (int (pos ch0) ∷ int (pos ch1) ∷ []))

  pub ordering_main : Endian → Prog S ℤ
  ordering_main e = do
    print (printf "original data: 0x1234\n" [])
    print_order (bytes_of e host_data) (print (printf "host data(big-endian): " []))
        (print (printf "host data(little-endian): " []))
    print_bytes (bytes_of e host_data)
    pure (pos 0)

  pub ntoh_hton_main : Endian → Prog S ℤ
  ntoh_hton_main e = do
    print (printf "original data: 0x1234\n" [])
    print_order (bytes_of e host_data) (print (printf "host(big-endian): " []))
        (print (printf "host(little-endian): " []))
    print_bytes (bytes_of e host_data)
    let (ch0, ch1) = bytes_of e (htons e host_data) in
        print (printf "network data(big-endian): 0x%x%x\n" (int (pos ch0) ∷ int (pos ch1) ∷ []))
    pure (pos 0)
