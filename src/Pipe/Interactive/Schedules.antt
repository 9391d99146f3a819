-- ===== src/Pipe/Interactive/Schedules.antt =====
-- All schedules of the two processes of 15.pipeline_test/interactive.c.
use linux_programming_exampl.Prelude.{
  ℕ, ◌<◌, ◌≡◌, refl, ap, ◌∙◌, ◌⊎◌, inl, inr, pos, List, [], ◌∷◌, arith,
}
use linux_programming_exampl.Program.{Output, text, printf}
use linux_programming_exampl.CMemory.{codes, c_str, overwrite}
use linux_programming_exampl.CMemory.Buffers.{c_str-overwrite_string}
use linux_programming_exampl.Pipe.Process.{
  Process, write, read, print, sleep, exit, to_child, Pair, pair, channels, local, Who, the_parent,
  the_child, turn, step, run, reached, run-reached, IsFair, fair_ends,
}
use linux_programming_exampl.Pipe.Interactive.{child, parent, main, str1, str2, buf_size}

-- How far the parent and the child are. Behind `answered` the parent still sleeps, or it is over.
data Stage : Type 0 where
  start : Stage
  asked : Stage
  heard : Stage
  shown : Stage
  answered : Stage
  answered_over : Stage
  read_back : Stage
  read_back_over : Stage
  told : Stage
  finished : Stage

abbrev next : Who → Stage → Stage
next the_parent start = start
next the_parent asked = heard
next the_parent heard = shown
next the_parent shown = answered
next the_parent answered = answered_over
next the_parent answered_over = answered_over
next the_parent read_back = read_back_over
next the_parent read_back_over = read_back_over
next the_parent told = finished
next the_parent finished = finished
next the_child start = asked
next the_child asked = asked
next the_child heard = heard
next the_child shown = shown
next the_child answered = read_back
next the_child answered_over = read_back_over
next the_child read_back = told
next the_child read_back_over = finished
next the_child told = told
next the_child finished = finished

-- The turns that are left.
abbrev left : Stage → ℕ
left start = 7
left asked = 6
left heard = 5
left shown = 4
left answered = 3
left answered_over = 2
left read_back = 2
left read_back_over = 1
left told = 1
left finished = 0

moves : (who : Who) (g : Stage) → (next who g ≡ g) ⊎ (left (next who g) < left g)
moves the_parent start = inl refl
moves the_parent asked = inr (omega arith)
moves the_parent heard = inr (omega arith)
moves the_parent shown = inr (omega arith)
moves the_parent answered = inr (omega arith)
moves the_parent answered_over = inl refl
moves the_parent read_back = inr (omega arith)
moves the_parent read_back_over = inl refl
moves the_parent told = inr (omega arith)
moves the_parent finished = inl refl
moves the_child start = inr (omega arith)
moves the_child asked = inl refl
moves the_child heard = inl refl
moves the_child shown = inl refl
moves the_child answered = inr (omega arith)
moves the_child answered_over = inr (omega arith)
moves the_child read_back = inr (omega arith)
moves the_child read_back_over = inr (omega arith)
moves the_child told = inl refl
moves the_child finished = inl refl

alive :
    (g : Stage)
    → (left g ≡ 0) ⊎ (left (next the_parent g) < left g) ⊎ (left (next the_child g) < left g)
alive start = inr (inr (omega arith))
alive asked = inr (inl (omega arith))
alive heard = inr (inl (omega arith))
alive shown = inr (inl (omega arith))
alive answered = inr (inl (omega arith))
alive answered_over = inr (inr (omega arith))
alive read_back = inr (inl (omega arith))
alive read_back_over = inr (inr (omega arith))
alive told = inr (inl (omega arith))
alive finished = inl refl

last_stage : (g : Stage) → left g ≡ 0 → g ≡ finished
last_stage start h = absurd (omega arith)
last_stage asked h = absurd (omega arith)
last_stage heard h = absurd (omega arith)
last_stage shown h = absurd (omega arith)
last_stage answered h = absurd (omega arith)
last_stage answered_over h = absurd (omega arith)
last_stage read_back h = absurd (omega arith)
last_stage read_back_over h = absurd (omega arith)
last_stage told h = absurd (omega arith)
last_stage finished h = refl

module _ (bp bc : List ℕ) where
  abbrev parent_line : List ℕ → Output
  parent_line bytes = printf "[Parent] output: %s\n" (text (c_str (overwrite bp 0 bytes)) ∷ [])

  abbrev child_line : List ℕ → Output
  child_line bytes = printf "[Child] output: %s\n" (text (c_str (overwrite bc 0 bytes)) ∷ [])

  abbrev done : Process
  done = exit (pos 0)

  abbrev answer : Process
  answer = write to_child str2 (sleep 3 done)

  abbrev wait_for_answer : Process
  wait_for_answer = read to_child buf_size (λ bytes. print (child_line bytes) done)

  abbrev at : Stage → Pair
  at start = main bp bc
  at asked = pair (channels str1 []) (local (parent bp) []) (local wait_for_answer [])
  at heard =
      pair (channels [] []) (local (print (parent_line str1) answer) []) (local wait_for_answer [])
  at shown = pair (channels [] []) (local answer (parent_line str1 ∷ [])) (local wait_for_answer [])
  at answered =
      pair (channels [] str2) (local (sleep 3 done) (parent_line str1 ∷ []))
        (local wait_for_answer [])
  at answered_over =
      pair (channels [] str2) (local done (parent_line str1 ∷ [])) (local wait_for_answer [])
  at read_back =
      pair (channels [] []) (local (sleep 3 done) (parent_line str1 ∷ []))
        (local (print (child_line str2) done) [])
  at read_back_over =
      pair (channels [] []) (local done (parent_line str1 ∷ []))
        (local (print (child_line str2) done) [])
  at told =
      pair (channels [] []) (local (sleep 3 done) (parent_line str1 ∷ []))
        (local done (child_line str2 ∷ []))
  at finished =
      pair (channels [] []) (local done (parent_line str1 ∷ [])) (local done (child_line str2 ∷ []))

  step-at : (who : Who) (g : Stage) → step who (at g) ≡ at (next who g)
  unfolding step turn main parent child
  step-at the_parent start = refl
  step-at the_parent asked = refl
  step-at the_parent heard = refl
  step-at the_parent shown = refl
  step-at the_parent answered = refl
  step-at the_parent answered_over = refl
  step-at the_parent read_back = refl
  step-at the_parent read_back_over = refl
  step-at the_parent told = refl
  step-at the_parent finished = refl
  step-at the_child start = refl
  step-at the_child asked = refl
  step-at the_child heard = refl
  step-at the_child shown = refl
  step-at the_child answered = refl
  step-at the_child answered_over = refl
  step-at the_child read_back = refl
  step-at the_child read_back_over = refl
  step-at the_child told = refl
  step-at the_child finished = refl

  -- What the two processes have printed when both have ended.
  abbrev result : Pair
  result =
      pair (channels [] [])
        (local done (printf "[Parent] output: %s\n" (text (codes "Who are you?") ∷ []) ∷ []))
        (local done
          (printf "[Child] output: %s\n" (text (codes "Thank you for your message") ∷ []) ∷ []))

  at_end : at finished ≡ result
  at_end =
      ap
        (λ (x : List ℕ).
          pair (channels [] []) (local done (printf "[Parent] output: %s\n" (text x ∷ []) ∷ []))
            (local done (child_line str2 ∷ [])))
        (c_str-overwrite_string bp (codes "Who are you?") (grind arith))
      ∙ ap
          (λ (x : List ℕ).
            pair (channels [] [])
              (local done (printf "[Parent] output: %s\n" (text (codes "Who are you?") ∷ []) ∷ []))
              (local done (printf "[Child] output: %s\n" (text x ∷ []) ∷ [])))
          (c_str-overwrite_string bc (codes "Thank you for your message") (grind arith))

  -- In each schedule in which both processes get at least seven turns in alternation, with any
  -- turns in between, the two processes answer each other and end: the parent has printed the
  -- question and the child the answer, whatever their arrays held, and nothing is left in the pipes.
  -- So all these schedules are equivalent.
  pub interactive_schedules : (l : List Who) → IsFair 7 l → run l (main bp bc) ≡ result
  interactive_schedules l fair =
      let g : Stage = reached at next left step-at moves alive l start in
      let e : g ≡ finished =
        last_stage g (fair_ends at next left step-at moves alive 7 l start fair (omega arith)) in
      run-reached at next left step-at moves alive l start ∙ ap at e ∙ at_end
