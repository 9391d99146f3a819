-- ===== src/Pipe/Process.antt =====
-- Two processes behind a `fork`, with a channel in each direction, and their schedules.
use linux_programming_exampl.Prelude.{
  ℕ, suc, ◌≤◌, ◌<◌, ◌≡◌, refl, sym, ap, ◌∙◌, ◌⊎◌, inl, inr, ◌≢◌, ◌==◌, ==→eq, Bool-cases, ℤ, List,
  [], ◌∷◌, ◌++◌, take, drop, arith,
}
use linux_programming_exampl.Program.{Output}

-- The pipe, or the direction of a pair of sockets, that the child writes to and the parent reads
-- from, and the other one.
pub data Channel : Type 0 where
  to_parent : Channel
  to_child : Channel

-- What is left of a process to run. The results of `write`, `close` and `sleep` are not looked at.
pub data Process : Type 0 where
  write : Channel → List ℕ → Process → Process
  read : Channel → ℕ → (List ℕ → Process) → Process
  print : Output → Process → Process
  close : Channel → Process → Process
  sleep : ℕ → Process → Process
  exit : ℤ → Process

-- The bytes in the channels.
pub record Channels : Type 0 where
  pub parent_in : List ℕ
  pub child_in : List ℕ

abbrev pub channels : List ℕ → List ℕ → Channels
channels p c = record { parent_in = p; child_in = c }

abbrev pub contents : Channel → Channels → List ℕ
contents to_parent h = h.parent_in
contents to_child h = h.child_in

abbrev pub refill : Channel → List ℕ → Channels → Channels
refill to_parent l h = channels l h.child_in
refill to_child l h = channels h.parent_in l

-- A process, and what it has printed.
pub record Local : Type 0 where
  pub program : Process
  pub out : List Output

abbrev pub local : Process → List Output → Local
local p o = record { program = p; out = o }

-- `read` gives what is there, up to the number of bytes that is asked for, and waits while there is
-- nothing: the writer has its end open until it has written. A `write` of this size is never cut.
abbrev pub receive : Channel → ℕ → (List ℕ → Process) → List ℕ → Channels → Local → Channels × Local
receive ch n k [] h me = (h, me)
receive ch n k (b ∷ l) h me = (refill ch (drop n (b ∷ l)) h, local (k (take n (b ∷ l))) me.out)

-- A turn of a process. A process that waits or has ended stays where it is.
unfoldable pub turn : Channels → Local → Channels × Local
turn h me = elim me.program [
  | write ch bytes p ↦ (refill ch (contents ch h ++ bytes) h, local p me.out)
  | read ch n k ↦ receive ch n k (contents ch h) h me
  | print o p ↦ (h, local p (me.out ++ (o ∷ [])))
  | close ch p ↦ (h, local p me.out)
  | sleep n p ↦ (h, local p me.out)
  | exit code ↦ (h, me)
]

pub record Pair : Type 0 where
  pub between : Channels
  pub parent : Local
  pub child : Local

abbrev pub pair : Channels → Local → Local → Pair
pair h p c = record { between = h; parent = p; child = c }

-- Whose turn it is.
pub data Who : Type 0 where
  the_parent : Who
  the_child : Who

unfoldable pub step : Who → Pair → Pair
unfolding turn
step the_parent s = let (h, p) = turn s.between s.parent in pair h p s.child
step the_child s = let (h, c) = turn s.between s.child in pair h s.parent c

unfoldable pub run : List Who → Pair → Pair
run [] s = s
run (who ∷ l) s = run l (step who s)

-- A schedule in which both processes have a turn in each of a number of periods.
pub data IsFair : ℕ → List Who → Type 0 where
  over : (l : List Who) → IsFair 0 l
  period :
      {n : ℕ} (a b : List Who) (l : List Who)
      → IsFair n l
      → IsFair (suc n) (a ++ (the_parent ∷ (b ++ (the_child ∷ l))))

-- A program whose states are those of `at`: a turn goes from one to another. `left` goes down with
-- every turn but those of a process that waits or has ended, and one of the processes can move as
-- long as it is not 0.
module _ {Stage : Type 0} (at : Stage → Pair) (next : Who → Stage → Stage) (left : Stage → ℕ)
    (step-at : (who : Who) (g : Stage) → step who (at g) ≡ at (next who g))
    (moves : (who : Who) (g : Stage) → (next who g ≡ g) ⊎ (left (next who g) < left g))
    (alive : (g : Stage)
      → (left g ≡ 0)
        ⊎ (left (next the_parent g) < left g)
        ⊎ (left (next the_child g) < left g)) where
  pub reached : List Who → Stage → Stage
  reached [] g = g
  reached (who ∷ l) g = reached l (next who g)

  pub run-reached : (l : List Who) (g : Stage) → run l (at g) ≡ at (reached l g)
  unfolding run reached
  run-reached [] g = refl
  run-reached (who ∷ l) g = ap (run l) (step-at who g) ∙ run-reached l (next who g)

  reached-append : (a b : List Who) (g : Stage) → reached (a ++ b) g ≡ reached b (reached a g)
  unfolding reached
  reached-append [] b g = refl
  reached-append (who ∷ a) b g = reached-append a b (next who g)

  next-le : (who : Who) (g : Stage) → left (next who g) ≤ left g
  next-le who g = elim (moves who g) [ inl e ↦ omega (arith, ap left e) | inr h ↦ omega arith ]

  reached-le : (l : List Who) (g : Stage) → left (reached l g) ≤ left g
  unfolding reached
  reached-le [] g = omega arith
  reached-le (who ∷ l) g = omega (arith, reached-le l (next who g), next-le who g)

  reached_same : (l : List Who) (g : Stage) → left (reached l g) ≡ left g → reached l g ≡ g
  unfolding reached
  reached_same [] g e = refl
  reached_same (who ∷ l) g e = elim (moves who g) [
    | inl same ↦
        ap (reached l) same ∙ reached_same l g (ap (λ x. left (reached l x)) (sym same) ∙ e)
    | inr less ↦ absurd (omega (arith, reached-le l (next who g)))
  ]

  abbrev after_period : List Who → List Who → Stage → Stage
  after_period a b g = next the_child (reached b (next the_parent (reached a g)))

  reached_period :
      (a b l : List Who) (g : Stage)
      → reached (a ++ (the_parent ∷ (b ++ (the_child ∷ l)))) g ≡ reached l (after_period a b g)
  unfolding reached
  reached_period a b l g =
      reached-append a (the_parent ∷ (b ++ (the_child ∷ l))) g
      ∙ reached-append b (the_child ∷ l) (next the_parent (reached a g))

  -- If the parent waits and the turns up to the child's one change nothing, the child moves.
  child_moves :
      (b : List Who) (g : Stage)
      → next the_parent g ≡ g
      → left (next the_child g) < left g
      → left (next the_child (reached b (next the_parent g))) < left g
  child_moves b g waits less = elim (Bool-cases (left (reached b g) == left g)) [
    | inl e ↦
        let same : reached b (next the_parent g) ≡ g =
          ap (reached b) waits ∙ reached_same b g (==→eq (left (reached b g)) (left g) e) in
        omega (arith, ap (λ x. left (next the_child x)) same)
    | inr n ↦
        let differ : left (reached b g) ≢ left g = ground (arith, n) in
        let same : left (reached b (next the_parent g)) ≡ left (reached b g) =
          ap (λ x. left (reached b x)) waits in
        omega (arith, next-le the_child (reached b (next the_parent g)), reached-le b g, differ)
  ]

  period-lt :
      (a b : List Who) (g : Stage) → (left (reached a g) ≡ 0) ⊎ (left (after_period a b g) < left g)
  period-lt a b g =
      let g1 : Stage = reached a g in
      let g2 : Stage = next the_parent g1 in
      let g3 : Stage = reached b g2 in
      let behind : left (next the_child g3) ≤ left g2 =
        omega (arith, next-le the_child g3, reached-le b g2) in
      let before : left g1 ≤ left g = reached-le a g in
      elim (alive g1) [
        | inl zero_left ↦ inl zero_left
        | inr (inl parent_moves) ↦ inr (omega arith)
        | inr (inr less) ↦ elim (moves the_parent g1) [
          | inl waits ↦ inr (omega (arith, child_moves b g1 waits less))
          | inr parent_moves ↦ inr (omega arith)
        ]
      ]

  -- In every schedule that is fair for long enough, the program comes to its end.
  pub fair_ends :
      (n : ℕ) (l : List Who) (g : Stage) → IsFair n l → left g ≤ n → left (reached l g) ≡ 0
  fair_ends n l g (over m) h = omega (arith, reached-le l g)
  fair_ends n l g (period {n = k} a b r fair) h =
      let e : left (reached l g) ≡ left (reached r (after_period a b g)) =
        ap left (reached_period a b r g) in
      elim (period-lt a b g) [
        | inl ended ↦ omega (
          arith,
          e,
          reached-le r (after_period a b g),
          next-le the_child (reached b (next the_parent (reached a g))),
          reached-le b (next the_parent (reached a g)),
          next-le the_parent (reached a g),
        )
        | inr less ↦ e ∙ fair_ends k r (after_period a b g) fair (omega arith)
      ]
