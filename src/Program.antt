-- ===== src/Program.antt =====
-- Programs over a kernel: what a process does is a function of the kernel's state and of what it has printed.
use linux_programming_exampl.Prelude.{
  ℕ, String, ◌≡◌, ℤ, Option, none, some, List, [], ◌∷◌, ◌++◌, ◌∙◌, append_assoc,
}

-- An argument of `printf`: a number for `%d`, the bytes of a C string for `%s`, and for `%.3f` a number
-- in millionths.
pub data Arg : Type 0 where
  int : ℤ → Arg
  text : List ℕ → Arg
  micros : ℤ → Arg

-- A call that writes to a terminal.
pub data Output : Type 0 where
  printf : String → List Arg → Output
  perror : String → Output

pub record World (S : Type 0) : Type 0 where
  pub os : S
  pub out : List Output

-- The world after one more item is printed, and with the kernel in another state.
abbrev pub said : {S : Type 0} → World S → Output → World S
said w o = record { os = w.os; out = w.out ++ (o ∷ []) }

abbrev pub moved : {S : Type 0} → World S → S → World S
moved w s = record { os = s; out = w.out }

-- `none`: the call does not return, since the process sleeps in the kernel or loops for good.
abbrev pub Prog : Type 0 → Type 0 → Type 0
Prog S A = World S → Option (A × World S)

module _ {S : Type 0} where
  abbrev pub pure : {A : Type 0} → A → Prog S A
  pure a w = some (a, w)

  -- The call that does not return.
  abbrev pub stuck : {A : Type 0} → Prog S A
  stuck w = none

  infixl 5 ◌>>=◌ ◌>>◌
  abbrev pub ◌>>=◌ : {A B : Type 0} → Prog S A → (A → Prog S B) → Prog S B
  ◌>>=◌ m f w = elim (m w) [ none ↦ none | some (a, w') ↦ f a w' ]

  abbrev pub ◌>>◌ : {A B : Type 0} → Prog S A → Prog S B → Prog S B
  m >> k = m >>= λ _. k

  -- Prints one item.
  abbrev pub print : Output → Prog S (Unit {0})
  print o w = some (tt, said w o)

  -- A system call that may block.
  abbrev pub call : {A : Type 0} → (S → Option (A × S)) → Prog S A
  call f w = elim (f w.os) [ none ↦ none | some (a, s) ↦ some (a, moved w s) ]

  -- A system call that always returns.
  abbrev pub sys : {A : Type 0} → (S → A × S) → Prog S A
  sys f w = some ((f w.os).0, moved w (f w.os).1)

  -- A call that always returns and gives nothing.
  abbrev pub act : (S → S) → Prog S (Unit {0})
  act f w = some (tt, moved w (f w.os))

pub some-pair_injective :
    {A B : Type 0} {a b : A} {v w : B}
    → ◌≡◌ {A = Option (A × B)} (some (a, v)) (some (b, w))
    → (a ≡ b) × (v ≡ w)
some-pair_injective h = (cc, cc)

-- What a program with a loop without an exit has come to after some rounds: it returned, or it is in
-- its loop.
pub data Status : Type 0 where
  running : Status
  returned : ℤ → Status

-- What is printed one by one.
pub two_more :
    (o : List Output) (a b : Output) (l : List Output)
    → ((o ++ (a ∷ [])) ++ (b ∷ [])) ++ l ≡ o ++ (a ∷ b ∷ l)
two_more o a b l = append_assoc (o ++ (a ∷ [])) (b ∷ []) l ∙ append_assoc o (a ∷ []) (b ∷ l)

pub three_more :
    (o : List Output) (a b c : Output) (l : List Output)
    → (((o ++ (a ∷ [])) ++ (b ∷ [])) ++ (c ∷ [])) ++ l ≡ o ++ (a ∷ b ∷ c ∷ l)
three_more o a b c l = two_more (o ++ (a ∷ [])) b c l ∙ append_assoc o (a ∷ []) (b ∷ c ∷ l)
