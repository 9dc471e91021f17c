-- ===== src/Proc/Defs.antt =====
-- Processes as trees of commands, and their execution without interference.
use queue_flow.Base.{ℕ, zero, suc, ◌≡◌, refl, Option, none, some}

-- `step change next`: one command, atomic in the store; `next` is given the state that the command
-- met, from which the reply is computed.
pub data Proc (S A : Type 0) : Type 0 where
  done : A → Proc S A
  step : (S → S) → (S → Proc S A) → Proc S A

module _ {S : Type 0} where
  infixl 5 ◌>>=◌ ◌>>◌
  abbrev pub ◌>>=◌ : {A B : Type 0} → Proc S A → (A → Proc S B) → Proc S B
  done a >>= f = f a
  step u k >>= f = step u (λ s. k s >>= f)

  abbrev pub ◌>>◌ : {A B : Type 0} → Proc S A → Proc S B → Proc S B
  p >> q = p >>= λ _. q

  -- A command that changes the state and returns a value computed from the state it met.
  abbrev pub command : {A : Type 0} → (S → S) → (S → A) → Proc S A
  command u g = step u (λ s. done (g s))

  abbrev pub read : {A : Type 0} → (S → A) → Proc S A
  read g = command (λ s. s) g

  abbrev pub write : (S → S) → Proc S (Unit {0})
  write u = command u (λ _. tt)

  -- Executed alone, to the end: the result and the final state.
  abbrev pub result : {A : Type 0} → Proc S A → S → A
  result (done a) s = a
  result (step u k) s = result (k s) (u s)

  abbrev pub final : {A : Type 0} → Proc S A → S → S
  final (done a) s = s
  final (step u k) s = final (k s) (u s)

  -- The state left by a process that stops (killed, or by an error it does not catch) after `n`
  -- commands.
  abbrev pub crash_after : {A : Type 0} → ℕ → Proc S A → S → S
  crash_after zero p s = s
  crash_after (suc n) (done a) s = s
  crash_after (suc n) (step u k) s = crash_after n (k s) (u s)

  -- A process that an error stops after `n` commands, in a caller that catches the error.
  abbrev pub cut : {A : Type 0} → ℕ → Proc S A → Proc S (Option A)
  cut zero p = done none
  cut (suc n) (done a) = done (some a)
  cut (suc n) (step u k) = step u (λ s. cut n (k s))

  pub result-bind :
      {A B : Type 0} (p : Proc S A) (f : A → Proc S B) (s : S)
      → result (p >>= f) s ≡ result (f (result p s)) (final p s)
  result-bind (done a) f s = refl
  result-bind (step u k) f s = result-bind (k s) f (u s)

  pub final-bind :
      {A B : Type 0} (p : Proc S A) (f : A → Proc S B) (s : S)
      → final (p >>= f) s ≡ final (f (result p s)) (final p s)
  final-bind (done a) f s = refl
  final-bind (step u k) f s = final-bind (k s) f (u s)
