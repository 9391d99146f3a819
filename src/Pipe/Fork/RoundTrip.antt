-- ===== src/Pipe/Fork/RoundTrip.antt =====
-- The message of pipe_example/main.c goes through the pipe.
use linux_programming_exampl.Prelude.{
  ℕ, suc, ◌≤◌, ◌<◌, ◌≡◌, ap, ◌∙◌, ℤ, pos, some, List, [], ◌∷◌, ◌++◌, length, take, drop, arith,
  take_all,
}
use linux_programming_exampl.Program.{World, Output, int, text, printf, moved, said}
use linux_programming_exampl.CMemory.{codes, c_str, memset, snprintf, overwrite}
use linux_programming_exampl.CMemory.Laws.{overwrite_zero, length-overwrite, length-memset}
use linux_programming_exampl.CMemory.Buffers.{c_str-overwrite_more}
use linux_programming_exampl.Pipe.Kernel.{PipeOs}
use linux_programming_exampl.Pipe.Fork.{max_buf_len, message_in, send_data, recv_data, main}

-- pipe(7), seen by the two processes of a `fork`: in the child it gives 0, and in the parent, which
-- goes on when the child has ended, the child's number.
pub record IsPipe (K : PipeOs) : Type 1 where
  pub content : K.State → List ℕ
  pub writes :
      (fd : ℤ) (buf : List ℕ) (n : ℕ) (s : K.State)
      → n ≤ length buf
      → ((K.write fd buf n s).0 ≡ pos n)
        × (content (K.write fd buf n s).1 ≡ content s ++ take n buf)
  pub reads :
      (fd : ℤ) (n : ℕ) (s : K.State)
      → 0 < length (content s)
      → (s' : K.State) × (K.read fd n s ≡ some (some (take n (content s)), s'))
        × (content s' ≡ drop n (content s))
  pub closes : (fd : ℤ) (s : K.State) → content (K.close fd s).1 ≡ content s

abbrev pub message : List ℕ
message = codes "msg: Hello world"

message_in_shape :
    (buf : List ℕ) → message_in buf ≡ message ++ (0 ∷ drop 17 (memset buf 0 max_buf_len))
unfolding snprintf
message_in_shape buf = overwrite_zero (memset buf 0 max_buf_len) (message ++ (0 ∷ []))

length-message_in :
    (buf : List ℕ) → length buf ≡ max_buf_len → length (message_in buf) ≡ max_buf_len
unfolding snprintf
length-message_in buf h =
    let cleared : length (memset buf 0 max_buf_len) ≡ length buf =
      length-memset buf 0 max_buf_len (omega arith) in
    length-overwrite (memset buf 0 max_buf_len) 0 (message ++ (0 ∷ [])) (omega arith) ∙ cleared ∙ h

module _ (K : PipeOs) (C : IsPipe K) where
  -- The child, which `fork` gives 0, sends and ends.
  main_child :
      (buf : List ℕ) (w : World K.State) (fd0 fd1 : ℤ) (s1 s2 : K.State)
      → K.pipe w.os ≡ ((pos 0, fd0, fd1), s1)
      → K.fork s1 ≡ (pos 0, s2)
      → C.content s2 ≡ []
      → length buf ≡ max_buf_len
      → (w' : World K.State) × (main K buf w ≡ some (pos 0, w'))
        × (C.content w'.os ≡ message_in buf)
  unfolding main send_data
  main_child buf w fd0 fd1 s1 s2 made forked empty len =
      let s3 : K.State = (K.close fd0 s2).1 in
      let whole : length (message_in buf) ≡ max_buf_len = length-message_in buf len in
      let (written, v) = C.writes fd1 (message_in buf) max_buf_len s3 (omega arith) in
      let s4 : K.State = (K.write fd1 (message_in buf) max_buf_len s3).1 in
      let line : Output =
        printf "[Send Data] - [PARENT] pid: %u, %s\n"
          (int (K.getpid s3) ∷ text (c_str (message_in buf)) ∷ []) in
      (
        moved (said w line) (K.close fd1 s4).1,
        ground (arith, made, forked, written),
        C.closes fd1 s4
            ∙ v
            ∙ ap (λ (l : List ℕ). l ++ take max_buf_len (message_in buf)) (C.closes fd0 s2 ∙ empty)
            ∙ take_all max_buf_len (message_in buf) (omega arith),
      )

  -- The parent, in a world where the child has sent, shows the message.
  main_parent :
      (buf child_buf : List ℕ) (w : World K.State) (n : ℕ) (fd0 fd1 : ℤ) (s1 s2 : K.State)
      → K.pipe w.os ≡ ((pos 0, fd0, fd1), s1)
      → K.fork s1 ≡ (pos (suc n), s2)
      → C.content s2 ≡ message_in child_buf
      → length child_buf ≡ max_buf_len
      → (s : K.State) × (pid : ℤ) × (main K buf w
          ≡ some (
            pos 0,
            record {
              os = s;
              out =
                  w.out
                  ++ (printf "[Recv Data] - [Child] pid: %u, %s\n" (int pid ∷ text message ∷ [])
                      ∷ []);
            },
          ))
  unfolding main recv_data
  main_parent buf child_buf w n fd0 fd1 s1 s2 made forked full len =
      let whole : length (message_in child_buf) ≡ max_buf_len = length-message_in child_buf len in
      let s3 : K.State = (K.close fd1 s2).1 in
      let there : C.content s3 ≡ message_in child_buf = C.closes fd1 s2 ∙ full in
      let size : length (C.content s3) ≡ max_buf_len = ap length there ∙ whole in
      let (s4, got, rest) = C.reads fd0 max_buf_len s3 (omega arith) in
      let bytes : List ℕ = take max_buf_len (C.content s3) in
      let same : bytes ≡ message_in child_buf =
        take_all max_buf_len (C.content s3) (omega arith) ∙ there in
      let shown : c_str (overwrite (memset buf 0 max_buf_len) 0 bytes) ≡ message =
        c_str-overwrite_more (memset buf 0 max_buf_len) bytes message
          (drop 17 (memset child_buf 0 max_buf_len)) (same ∙ message_in_shape child_buf)
          (grind arith) in
      ((K.close fd0 s4).1, K.getpid s4, ground (arith, made, forked, got, shown))
