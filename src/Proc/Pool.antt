-- ===== src/Proc/Pool.antt =====
-- Many processes over one state: any interleaving of their commands, with arrivals, crashes and
-- changes that no process makes (time, expiry).
use queue_flow.Base.{◌≡◌, refl, List, [], ◌∷◌, ◌++◌, All, All-append, subst}
use queue_flow.Proc.Defs.{Proc, done, step, final}
use queue_flow.Proc.Rules.{Safe, Safe-later}

abbrev pub Task : Type 0 → Type 0
Task S = Proc S (Unit {0})

pub record Config (S : Type 0) : Type 0 where
  pub state : S
  pub tasks : List (Task S)

-- `Starts s p`: a process that may arrive in state `s`. `Env s t`: a change made by nobody.
pub data Move {S : Type 0} (Starts : S → Task S → Type 0) (Env : S → S → Type 0)
    : Config S → Config S → Type 0 where
  run :
      (c : Config S) (before after : List (Task S)) (u : S → S) (k : S → Task S)
      → c.tasks ≡ before ++ (step u k ∷ after)
      → Move Starts Env c (record { state = u c.state; tasks = before ++ (k c.state ∷ after) })
  crash :
      (c : Config S) (before after : List (Task S)) (p : Task S)
      → c.tasks ≡ before ++ (p ∷ after)
      → Move Starts Env c (record { state = c.state; tasks = before ++ after })
  arrive :
      (c : Config S) (p : Task S)
      → Starts c.state p
      → Move Starts Env c (record { state = c.state; tasks = p ∷ c.tasks })
  outside :
      (c : Config S) (t : S)
      → Env c.state t
      → Move Starts Env c (record { state = t; tasks = c.tasks })

pub data Reach {S : Type 0} (Starts : S → Task S → Type 0) (Env : S → S → Type 0) (c : Config S)
    : Config S → Type 0 where
  here : Reach Starts Env c c
  next : {d e : Config S} → Reach Starts Env c d → Move Starts Env d e → Reach Starts Env c e

All-split {ℓ κ} :
    {A : Type ℓ} (P : A → Type κ) (xs ys : List A) → All P (xs ++ ys) → All P xs × All P ys
All-split P [] ys h = (tt, h)
All-split P (x ∷ xs) ys h = let (hx, hy) = All-split P xs ys h.1 in ((h.0, hx), hy)

-- An invariant that each process keeps by itself, in all states that the others can bring about.
module _ {S : Type 0} (Starts : S → Task S → Type 0) (Env : S → S → Type 0) (I : S → Type 0)
    (R : S → S → Type 0) (R-refl : (a : S) → R a a) (R-trans : (a b c : S) → R a b → R b c → R a c)
    (start-Safe : (s : S) (p : Task S) → I s → Starts s p → Safe I R (λ _ _. Unit {0}) p s)
    (env-Safe : (s t : S) → I s → Env s t → I t × R s t) where
  abbrev Safes : S → Task S → Type 0
  Safes s p = Safe I R (λ _ _. Unit {0}) p s

  later : (s t : S) → R s t → (ps : List (Task S)) → All (Safes s) ps → All (Safes t) ps
  later s t r [] h = tt
  later s t r (p ∷ ps) h =
      (Safe-later I R (λ _ _. Unit {0}) R-trans (λ _ _ _ _ _. tt) p s t r h.0, later s t r ps h.1)

  abbrev pub Good : Config S → Type 0
  Good c = I c.state × All (Safes c.state) c.tasks

  split3 :
      (c : Config S) (before after : List (Task S)) (p : Task S)
      → c.tasks ≡ before ++ (p ∷ after)
      → All (Safes c.state) c.tasks
      → All (Safes c.state) before × Safes c.state p × All (Safes c.state) after
  split3 c before after p e h =
      let (hb, hr) =
        All-split (Safes c.state) before (p ∷ after) (subst (All (Safes c.state)) e h) in
      (hb, hr.0, hr.1)

  -- Every configuration reached keeps the invariant: in all interleavings, with all crashes.
  Move-Good : {c d : Config S} → Good c → Move Starts Env c d → Good d
  Move-Good g (run c before after u k e) =
      let (hb, hp, ha) = split3 c before after (step u k) e g.1 in
      let (i, r, h) = hp c.state (R-refl c.state) g.0 in
      (
        i,
        All-append (Safes (u c.state)) before (k c.state ∷ after)
            (later c.state (u c.state) r before hb) (h, later c.state (u c.state) r after ha),
      )
  Move-Good g (crash c before after p e) =
      let (hb, hp, ha) = split3 c before after p e g.1 in
      (g.0, All-append (Safes c.state) before after hb ha)
  Move-Good g (arrive c p st) = (g.0, (start-Safe c.state p g.0 st, g.1))
  Move-Good g (outside c t env) =
      let (i, r) = env-Safe c.state t g.0 env in (i, later c.state t r c.tasks g.1)

  pub Reach-Good : {c d : Config S} → Good c → Reach Starts Env c d → Good d
  Reach-Good g here = g
  Reach-Good g (next r m) = Move-Good (Reach-Good g r) m

-- The only process there is may run to its end.
pub Reach-alone :
    {S : Type 0} (Starts : S → Task S → Type 0) (Env : S → S → Type 0) (c : Config S) (p : Task S)
    (s : S)
    → Reach Starts Env c (record { state = s; tasks = p ∷ [] })
    → Reach Starts Env c (record { state = final p s; tasks = done tt ∷ [] })
Reach-alone Starts Env c (done tt) s r = r
Reach-alone Starts Env c (step u k) s r =
    Reach-alone Starts Env c (k s) (u s) (next r (run _ [] [] u k refl))
