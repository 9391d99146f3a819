-- ===== src/Net/Order/Network.antt =====
-- The bytes of a number on the network.
use linux_programming_exampl.Prelude.{
  ℕ, ◌+◌, ◌*◌, ◌/◌, ◌%◌, ◌^◌, ◌<◌, ◌≡◌, refl, ap, ◌∙◌, pos, some, List, [], ◌∷◌, ◌++◌, arith,
}
use linux_programming_exampl.Program.{World, Output, int, printf}
use linux_programming_exampl.Net.Order.{
  Endian, big, little, bytes_of, htons, print_order, ntoh_hton_main,
}

-- The memory of a number in the order of the network is the same on all machines: the high byte first.
htons_network : (e : Endian) (n : ℕ) → bytes_of e (htons e n) ≡ (n / 256 % 256, n % 256)
unfolding bytes_of htons
htons_network big n =
    ap (λ (a : ℕ). (a, n % 2 ^ 16 % 256)) (omega arith)
    ∙ ap (λ (b : ℕ). (n / 256 % 256, b)) (omega arith)
htons_network little n =
    let m : ℕ = n % 256 * 256 + n / 256 % 256 in
    ap (λ (a : ℕ). (a, m / 256 % 256)) (omega arith)
    ∙ ap (λ (b : ℕ). (n / 256 % 256, b)) (omega arith)

-- Going to the network and back is the identity on 16 bits.
htons-htons : (e : Endian) (n : ℕ) → n < 2 ^ 16 → htons e (htons e n) ≡ n
unfolding htons
htons-htons big n h = omega arith
htons-htons little n h = omega arith

-- The program shows the bytes of the network as 0x1234 on all machines, behind what it shows of the
-- machine's own order.
ntoh_hton_main_network :
    {S : Type 0} (e : Endian) (w : World S)
    → (w' : World S) × (o : List Output) × (ntoh_hton_main e w ≡ some (pos 0, w'))
      × (w'.out
          ≡ o
            ++ (printf "network data(big-endian): 0x%x%x\n" (int (pos 18) ∷ int (pos 52) ∷ [])
                ∷ []))
unfolding ntoh_hton_main print_order bytes_of htons
ntoh_hton_main_network big w = (_, _, refl, refl)
ntoh_hton_main_network little w = (_, _, refl, refl)
