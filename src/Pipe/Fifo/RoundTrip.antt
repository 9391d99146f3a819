-- ===== src/Pipe/Fifo/RoundTrip.antt =====
-- The message of namePipe_example/main.c goes through the FIFO.
use linux_programming_exampl.Prelude.{
  ℕ, ◌≤◌, ◌<◌, ◌≡◌, refl, ap, ◌∙◌, ℤ, pos, minus_one, is_minus_one, Option, none, inl, inr,
  Bool-cases, if◌then◌else◌, some, List, [], ◌∷◌, ◌++◌, length, take, drop, arith, take_all,
  drop_all,
}
use linux_programming_exampl.Program.{World, Output, print, pure, int, text, printf, moved, said}
use linux_programming_exampl.CMemory.{codes, c_str, strcmp_eq, memset, snprintf, overwrite}
use linux_programming_exampl.CMemory.Laws.{overwrite_zero, length-overwrite, length-memset}
use linux_programming_exampl.CMemory.Buffers.{c_str-overwrite_more}
use linux_programming_exampl.Pipe.Kernel.{PipeOs}
use linux_programming_exampl.Pipe.Fifo.{
  path_name, max_buf_len, message_in, send_data, recv_data, main,
}

-- What is in the FIFO, or that there is none, and the descriptor that this process has of it.
pub record Fifo : Type 0 where
  pub content : Option (List ℕ)
  pub opened : Option ℤ

abbrev pub fifo : Option (List ℕ) → Option ℤ → Fifo
fifo c o = record { content = c; opened = o }

-- unlink(2), mkfifo(3) and fifo(7), for the path of the program, when another process has the other end
-- open.
pub record IsFifo (K : PipeOs) : Type 1 where
  pub view : K.State → Fifo
  pub unlinks :
      (old : List ℕ) (s : K.State)
      → view s ≡ fifo (some old) none
      → ((K.unlink path_name s).0 ≡ pos 0) × (view (K.unlink path_name s).1 ≡ fifo none none)
  pub nothing_there :
      (s : K.State)
      → view s ≡ fifo none none
      → ((K.unlink path_name s).0 ≡ minus_one) × (view (K.unlink path_name s).1 ≡ fifo none none)
  pub makes :
      (s : K.State)
      → view s ≡ fifo none none
      → ((K.mkfifo path_name s).0 ≡ pos 0) × (view (K.mkfifo path_name s).1 ≡ fifo (some []) none)
  -- `EEXIST`
  pub makes_none :
      (old : List ℕ) (s : K.State)
      → view s ≡ fifo (some old) none
      → ((K.mkfifo path_name s).0 ≡ minus_one)
        × (view (K.mkfifo path_name s).1 ≡ fifo (some old) none)
  pub opens_write :
      (c : List ℕ) (s : K.State)
      → view s ≡ fifo (some c) none
      → (fd : ℕ) × (s' : K.State) × (K.open_write path_name s ≡ some (pos fd, s'))
        × (view s' ≡ fifo (some c) (some (pos fd)))
  pub opens_read :
      (c : List ℕ) (s : K.State)
      → view s ≡ fifo (some c) none
      → (fd : ℕ) × (s' : K.State) × (K.open_read path_name s ≡ some (pos fd, s'))
        × (view s' ≡ fifo (some c) (some (pos fd)))
  pub writes :
      (fd : ℤ) (c buf : List ℕ) (n : ℕ) (s : K.State)
      → view s ≡ fifo (some c) (some fd)
      → n ≤ length buf
      → ((K.write fd buf n s).0 ≡ pos n)
        × (view (K.write fd buf n s).1 ≡ fifo (some (c ++ take n buf)) (some fd))
  pub reads :
      (fd : ℤ) (c : List ℕ) (n : ℕ) (s : K.State)
      → view s ≡ fifo (some c) (some fd)
      → 0 < length c
      → (s' : K.State) × (K.read fd n s ≡ some (some (take n c), s'))
        × (view s' ≡ fifo (some (drop n c)) (some fd))
  pub closes :
      (fd : ℤ) (c : List ℕ) (s : K.State)
      → view s ≡ fifo (some c) (some fd)
      → view (K.close fd s).1 ≡ fifo (some c) none

abbrev pub message : List ℕ
message = codes "fifo TEST hello world"

-- The buffer of the sender: the message, its zero byte, and the rest of the array.
message_in_shape :
    (buf : List ℕ) → message_in buf ≡ message ++ (0 ∷ drop 22 (memset buf 0 max_buf_len))
unfolding snprintf
message_in_shape buf = overwrite_zero (memset buf 0 max_buf_len) (message ++ (0 ∷ []))

length-message_in :
    (buf : List ℕ) → length buf ≡ max_buf_len → length (message_in buf) ≡ max_buf_len
unfolding snprintf
length-message_in buf h =
    let cleared : length (memset buf 0 max_buf_len) ≡ length buf =
      length-memset buf 0 max_buf_len (omega arith) in
    length-overwrite (memset buf 0 max_buf_len) 0 (message ++ (0 ∷ [])) (omega arith) ∙ cleared ∙ h

module _ (K : PipeOs) (C : IsFifo K) where
  -- The complaint that there was nothing to remove changes nothing in the kernel.
  unlink_shown :
      (removed : ℤ) (o : Output) (w : World K.State)
      → (w' : World K.State) × ((if is_minus_one removed then print o else pure tt) w
          ≡ some (tt, w'))
        × (w'.os ≡ w.os)
  unlink_shown removed o w = elim (Bool-cases (is_minus_one removed)) [
    | inl yes_removed ↦ (said w o, rw yes_removed refl, refl)
    | inr not_removed ↦ (w, rw not_removed refl, refl)
  ]

  -- `unlink` leaves no FIFO.
  unlink_lem :
      (before : Option (List ℕ)) (s : K.State)
      → C.view s ≡ fifo before none
      → C.view (K.unlink path_name s).1 ≡ fifo none none
  unlink_lem none s v = (C.nothing_there s v).1
  unlink_lem (some old) s v = (C.unlinks old s v).1

  send_data_total :
      (before : Option (List ℕ)) (buf : List ℕ) (w : World K.State)
      → length buf ≡ max_buf_len
      → C.view w.os ≡ fifo before none
      → (w' : World K.State) × (send_data K buf w ≡ some (tt, w'))
        × (C.view w'.os ≡ fifo (some (message_in buf)) none)
  unfolding send_data
  send_data_total before buf w len v =
      let s1 : K.State = (K.unlink path_name w.os).1 in
      let (w1, told, same) =
        unlink_shown (K.unlink path_name w.os).0 (printf "파일 생성이 필요합니다.\n" []) (moved w s1) in
      let v1 : C.view w1.os ≡ fifo none none = ap C.view same ∙ unlink_lem before w.os v in
      let (made, v2) = C.makes w1.os v1 in
      let s2 : K.State = (K.mkfifo path_name w1.os).1 in
      let (fd, s3, opened, v3) = C.opens_write [] s2 v2 in
      let whole : length (message_in buf) ≡ max_buf_len = length-message_in buf len in
      let (written, v4) = C.writes (pos fd) [] (message_in buf) max_buf_len s3 v3 (omega arith) in
      let s4 : K.State = (K.write (pos fd) (message_in buf) max_buf_len s3).1 in
      let line : Output = printf "[SEND](%u) fifo TEST hello world\n" (int (K.getpid s3) ∷ []) in
      (
        moved (said (moved w1 s3) line) (K.close (pos fd) s4).1,
        ground (arith, told, made, opened, written),
        C.closes (pos fd) (take max_buf_len (message_in buf)) s4 v4
            ∙ ap (λ (l : List ℕ). fifo (some l) none)
                (take_all max_buf_len (message_in buf) (omega arith)),
      )

  -- The message is received in any buffer.
  recv_data_total :
      (buf sender_buf : List ℕ) (w : World K.State)
      → length sender_buf ≡ max_buf_len
      → C.view w.os ≡ fifo (some (message_in sender_buf)) none
      → (s : K.State) × (pid : ℤ) × (recv_data K buf w
          ≡ some (
            tt,
            record {
              os = s;
              out = w.out ++ (printf "[RECV](%u) %s\n" (int pid ∷ text message ∷ []) ∷ []);
            },
          ))
        × (C.view s ≡ fifo (some []) none)
  unfolding recv_data
  recv_data_total buf sender_buf w len v =
      let m : List ℕ = message_in sender_buf in
      let whole : length m ≡ max_buf_len = length-message_in sender_buf len in
      let (fd, s1, opened, v1) = C.opens_read m w.os v in
      let (s2, got, v2) = C.reads (pos fd) m max_buf_len s1 v1 (omega arith) in
      let bytes : List ℕ = take max_buf_len m in
      let same : bytes ≡ m = take_all max_buf_len m (omega arith) in
      let shown : c_str (overwrite (memset buf 0 max_buf_len) 0 bytes) ≡ message =
        c_str-overwrite_more (memset buf 0 max_buf_len) bytes message
          (drop 22 (memset sender_buf 0 max_buf_len)) (same ∙ message_in_shape sender_buf)
          (grind arith) in
      (
        (K.close (pos fd) s2).1,
        K.getpid s2,
        ground (arith, opened, got, shown),
        C.closes (pos fd) (drop max_buf_len m) s2 v2
            ∙ ap (λ (l : List ℕ). fifo (some l) none) (drop_all max_buf_len m (omega arith)),
      )

  -- On a machine where the FIFO can be made when there is none, and the other process has it open: the
  -- command "s", and then the command "r", show the message that was sent, whatever the arrays held,
  -- and whether there was no FIFO before or one that held anything, since "s" removes it first. Both
  -- return 0 and leave no descriptor of the FIFO open, and the FIFO is empty.
  pub main_r-main_s :
      (before : Option (List ℕ)) (name : List ℕ) (sender_buf buf : List ℕ) (w : World K.State)
      → length sender_buf ≡ max_buf_len
      → C.view w.os ≡ fifo before none
      → (w1 : World K.State) × (s : K.State) × (pid : ℤ) × (main K
            (name ∷ codes "s" ∷ [])
            sender_buf
            w
          ≡ some (pos 0, w1))
        × (main K (name ∷ codes "r" ∷ []) buf w1
            ≡ some (
              pos 0,
              record {
                os = s;
                out = w1.out ++ (printf "[RECV](%u) %s\n" (int pid ∷ text message ∷ []) ∷ []);
              },
            ))
        × (C.view s ≡ fifo (some []) none)
  unfolding main strcmp_eq
  main_r-main_s before name sender_buf buf w len v =
      let (w1, sent, full) = send_data_total before sender_buf w len v in
      let (s, pid, got, empty) = recv_data_total buf sender_buf w1 len full in
      (w1, s, pid, ground (arith, sent), ground (arith, got), empty)
