-- ===== src/Udp/EchoClient.antt =====
-- tcp_ip_programming/just_study/9.echo_service_udp/client.c, as its switches stand: USE_ALARM and
-- CHECK_TARGET_VALIDATION are 0, CHECK_ASTNC_ERROR is 1.
pub mod Lines
use linux_programming_exampl.Prelude.{
  ℕ, zero, suc, ℤ, pos, negsuc, minus_one, Option, none, some, List, [], ◌∷◌,
}
use linux_programming_exampl.Program.{
  Prog, Status, running, returned, text, printf, pure, ◌>>=◌, ◌>>◌, print, sys,
}
use linux_programming_exampl.CMemory.{c_str, strlen, overwrite}
use linux_programming_exampl.Tcp.Kernel.{bufsiz}
use linux_programming_exampl.Udp.Kernel.{UdpOs}
use linux_programming_exampl.Udp.EchoServer.{address}

module _ (K : UdpOs) where
  -- The loop, followed for `rounds` rounds, where `snd_buff` is what the array holds. The array has a
  -- zero byte: without one, `strlen` and `printf` read on behind the array, which is not modelled.
  pub client_loop : ℤ → ℕ → List ℕ → Prog K.State Status
  client_loop sd zero snd_buff = pure running
  client_loop sd (suc rounds) snd_buff = do
    print (printf "waiting\n" [])
    n ← sys (K.read (pos 0) bufsiz)
    elim n [
      | none ↦ do print (printf "read() error\n" []); pure (returned minus_one)
      | some bytes ↦ do
        print (printf "Original Data: %s\n" (text (c_str (overwrite snd_buff 0 bytes)) ∷ []))
        n_send ← sys (K.write sd (overwrite snd_buff 0 bytes) (strlen (overwrite snd_buff 0 bytes)))
        elim n_send [
          | negsuc k ↦ do print (printf "sendto() error\n" []); pure (returned minus_one)
          | pos k ↦ do
            back ← sys (K.read sd (strlen (overwrite snd_buff 0 bytes)))
            elim back [
              | none ↦ do print (printf "recvfrom() error\n" []); pure (returned minus_one)
              | some echoed ↦ do
                print (
                    printf "echoed Data: %s\n"
                      (text (c_str (overwrite (overwrite snd_buff 0 bytes) 0 echoed)) ∷ []))
                client_loop sd rounds (overwrite (overwrite snd_buff 0 bytes) 0 echoed)
            ]
        ]
    ]

  -- The result of `connect` is not looked at.
  pub client_main : ℕ → List ℕ → Prog K.State Status
  client_main rounds snd_buff = do
    sd ← sys K.socket
    sys (K.connect sd (address K))
    client_loop sd rounds snd_buff
