-- ===== src/Proc/Rules.antt =====
-- What every command of a process does, whatever other processes do in between.
use queue_flow.Base.{ℕ, zero, suc, ◌+◌}
use queue_flow.Proc.Defs.{Proc, done, step, ◌>>=◌, crash_after, cut}

module _ {S : Type 0} where
  -- Every command of the process, met in any state, relates that state to the next one by `G`.
  abbrev pub Always : {A : Type 0} → (S → S → Type 0) → Proc S A → Type 0
  Always G (done a) = Unit
  Always G (step u k) = (s : S) → G s (u s) × Always G (k s)

  -- The same, where the relation is also told the number of the command; the first one is `n`.
  abbrev pub AlwaysFrom : {A : Type 0} → (ℕ → S → S → Type 0) → ℕ → Proc S A → Type 0
  AlwaysFrom G n (done a) = Unit
  AlwaysFrom G n (step u k) = (s : S) → G n s (u s) × AlwaysFrom G (n + 1) (k s)

  pub Always-bind :
      {A B : Type 0} (G : S → S → Type 0) (p : Proc S A) (f : A → Proc S B)
      → Always G p
      → ((a : A) → Always G (f a))
      → Always G (p >>= f)
  Always-bind G (done a) f h hf = hf a
  Always-bind G (step u k) f h hf = λ s. ((h s).0, Always-bind G (k s) f (h s).1 hf)

  pub Always-cut :
      {A : Type 0} (G : S → S → Type 0) (n : ℕ) (p : Proc S A) → Always G p → Always G (cut n p)
  Always-cut G zero p h = tt
  Always-cut G (suc n) (done a) h = tt
  Always-cut G (suc n) (step u k) h = λ s. ((h s).0, Always-cut G n (k s) (h s).1)

  -- `Safe I R Q p s`: from `s` on, met in any later state (later by `R`) where `I` holds, each
  -- command keeps `I` and moves on by `R`, and at the end `Q` holds of the result.
  abbrev pub Safe :
      {A : Type 0} → (S → Type 0) → (S → S → Type 0) → (A → S → Type 0) → Proc S A → S → Type 0
  Safe I R Q (done a) s = Q a s
  Safe I R Q (step u k) s = (t : S) → R s t → I t → I (u t) × R t (u t) × Safe I R Q (k t) (u t)

  pub Safe-bind :
      {A B : Type 0} (I : S → Type 0) (R : S → S → Type 0) (P : A → S → Type 0) (Q : B → S → Type 0)
      (p : Proc S A) (f : A → Proc S B) (s : S)
      → Safe I R P p s
      → ((a : A) (t : S) → P a t → Safe I R Q (f a) t)
      → Safe I R Q (p >>= f) s
  Safe-bind I R P Q (done a) f s h hf = hf a s h
  Safe-bind I R P Q (step u k) f s h hf =
      λ t r i. ((h t r i).0, (h t r i).1, Safe-bind I R P Q (k t) f (u t) (h t r i).2 hf)

  -- A process that is safe in `s` is safe in every later state.
  pub Safe-later :
      {A : Type 0} (I : S → Type 0) (R : S → S → Type 0) (Q : A → S → Type 0)
      → ((a b c : S) → R a b → R b c → R a c)
      → ((a : A) (s t : S) → R s t → Q a s → Q a t)
      → (p : Proc S A) (s t : S) → R s t
      → Safe I R Q p s
      → Safe I R Q p t
  Safe-later I R Q trans stable (done a) s t r h = stable a s t r h
  Safe-later I R Q trans stable (step u k) s t r h = λ t' r' i. h t' (trans s t t' r r') i

  -- Stopped after any number of its commands, a safe process leaves the invariant behind.
  pub Safe-crash :
      {A : Type 0} (I : S → Type 0) (R : S → S → Type 0) (Q : A → S → Type 0)
      → ((a : S) → R a a)
      → (n : ℕ) (p : Proc S A) (s : S) → I s
      → Safe I R Q p s
      → I (crash_after n p s)
  Safe-crash I R Q refl' zero p s i h = i
  Safe-crash I R Q refl' (suc n) (done a) s i h = i
  Safe-crash I R Q refl' (suc n) (step u k) s i h =
      let (i', r', h') = h s (refl' s) i in Safe-crash I R Q refl' n (k s) (u s) i' h'

  -- Stopped by an error that is caught, a safe process is safe.
  pub Safe-cut :
      {A : Type 0} (I : S → Type 0) (R : S → S → Type 0) (n : ℕ) (p : Proc S A) (s : S)
      → Safe I R (λ _ _. Unit {0}) p s
      → Safe I R (λ _ _. Unit {0}) (cut n p) s
  Safe-cut I R zero p s h = tt
  Safe-cut I R (suc n) (done a) s h = tt
  Safe-cut I R (suc n) (step u k) s h =
      λ t r i. ((h t r i).0, (h t r i).1, Safe-cut I R n (k t) (u t) (h t r i).2)

  -- A fact that lasts is still there when the process is done.
  pub Safe-lasting :
      {A : Type 0} (I : S → Type 0) (R : S → S → Type 0) (Q : A → S → Type 0) (F : S → Type 0)
      → ((s t : S) → R s t → F s → F t)
      → (p : Proc S A) (s : S) → F s
      → Safe I R Q p s
      → Safe I R (λ a t. F t) p s
  Safe-lasting I R Q F lasts (done a) s f h = f
  Safe-lasting I R Q F lasts (step u k) s f h = λ t r i. (
    (h t r i).0,
    (h t r i).1,
    Safe-lasting I R Q F lasts (k t) (u t) (lasts t (u t) (h t r i).1 (lasts s t r f)) (h t r i).2,
  )
