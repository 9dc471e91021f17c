-- ===== src/Api/Auth/Throttle.antt =====
-- src/api/auth.ts and src/api/index.ts: sequences of logins from one address.
use queue_flow.Base.{
  ℕ, suc, ◌+◌, ◌-◌, ◌≤◌, ◌<◌, ◌≡◌, ◌∙◌, refl, ap, inl, inr, Bool, true, false, none, some, List, [],
  ◌∷◌, Text, ◌===◌, ===_refl, if◌then◌else◌, length, All, arith, leb, min, Bool-cases, Option-cases,
}
use queue_flow.Json.{Value}
use queue_flow.Api.Auth.{
  Runtime, AuthConfig, Entry, Attempts, set_entry, is_stale, max_attempts, attempt_window_ms,
  is_throttled, next_entry, record_failure, LoginReply, too_many, wrong_password, signed_in,
  is_accepted, answer_login, checked_login, login, issue_session,
}

-- A login: its time, and the `password` of its body.
abbrev pub Attempt : Type 0
Attempt = ℕ × Value

abbrev pub is_checked : LoginReply → Bool
is_checked too_many = false
is_checked wrong_password = true
is_checked (signed_in value) = true

module _ (js : Runtime) (cfg : AuthConfig) (ip : Text) where
  -- The logins one after the other: how many of them had their password looked at.
  pub count_checked : List Attempt → Attempts → ℕ
  count_checked [] m = 0
  count_checked (a ∷ rest) m =
      let (m', reply) = login js cfg a.0 ip a.1 m in
      let n = count_checked rest m' in if is_checked reply then suc n else n

  abbrev pub IsRefused : Attempt → Type 0
  IsRefused a = is_accepted js cfg a.1 ≡ false

  -- A login while the entry of the address is fresh.
  fresh_login :
      (a : Attempt) (m : Attempts) (e : Entry)
      → m ip ≡ some e
      → IsRefused a
      → a.0 ≤ e.first_at + attempt_window_ms
      → login js cfg a.0 ip a.1 m ≡ (
          if leb max_attempts e.count
          then (m, too_many)
          else (set_entry ip (some (record e { count = e.count + 1 })) m, wrong_password))
  unfolding login is_throttled checked_login answer_login record_failure next_entry
  fresh_login a m e h r t =
      let fresh : is_stale a.0 e ≡ false = ground arith in
      elim (Bool-cases (leb max_attempts e.count)) [
        | inl full ↦ rw (h, is_throttled, fresh, full) refl
        | inr left ↦
            rw (h, is_throttled, fresh, left, r, answer_login) (rw (h, next_entry, fresh) refl)
      ]

  count_checked-step :
      (a : Attempt) (rest : List Attempt) (m m' : Attempts) (reply : LoginReply)
      → login js cfg a.0 ip a.1 m ≡ (m', reply)
      → count_checked (a ∷ rest) m
        ≡ (if is_checked reply then suc (count_checked rest m') else count_checked rest m')
  unfolding count_checked
  count_checked-step a rest m m' reply e =
      ap (λ p. if is_checked p.1 then suc (count_checked rest p.0) else count_checked rest p.0) e

  abbrev Within : ℕ → Attempt → Type 0
  Within first_at a = a.0 ≤ first_at + attempt_window_ms

  count_checked-fresh :
      (later : List Attempt) (m : Attempts) (e : Entry)
      → m ip ≡ some e
      → All IsRefused later
      → All (Within e.first_at) later
      → count_checked later m ≡ min (length later) (max_attempts - e.count)
  unfolding count_checked
  count_checked-fresh [] m e h r t = omega arith
  count_checked-fresh (a ∷ later) m e h r t = elim (Bool-cases (leb max_attempts e.count)) [
    | inl full ↦
        let step =
          count_checked-step a later m m too_many (rw full at (fresh_login a m e h r.0 t.0)) in
        step ∙ count_checked-fresh later m e h r.1 t.1 ∙ ground arith
    | inr left ↦
        let e' : Entry = record e { count = e.count + 1 } in
        let m' = set_entry ip (some e') m in
        let step =
          count_checked-step a later m m' wrong_password
            (rw left at (fresh_login a m e h r.0 t.0)) in
        let found : m' ip ≡ some e' = rw (===_refl ip) refl in
        step ∙ ap suc (count_checked-fresh later m' e' found r.1 t.1) ∙ ground arith
  ]

  first_login :
      (a : Attempt) (m : Attempts)
      → m ip ≡ none
      → IsRefused a
      → login js cfg a.0 ip a.1 m
        ≡ (set_entry ip (some (record { count = 1; first_at = a.0 })) m, wrong_password)
  unfolding login is_throttled checked_login answer_login record_failure next_entry
  first_login a m h r = rw (h, is_throttled, r, answer_login) (rw (h, next_entry) refl)

  -- For an address without earlier failures, and any number of logins that are refused, all
  -- within the window after the first one: the password of the first five is looked at and of
  -- no other.
  pub login-five :
      (a : Attempt) (later : List Attempt) (m : Attempts)
      → m ip ≡ none
      → All IsRefused (a ∷ later)
      → All (Within a.0) later
      → count_checked (a ∷ later) m ≡ min (suc (length later)) max_attempts
  login-five a later m h r t =
      let e : Entry = record { count = 1; first_at = a.0 } in
      let m' = set_entry ip (some e) m in
      let found : m' ip ≡ some e = rw (===_refl ip) refl in
      count_checked-step a later m m' wrong_password (first_login a m h r.0)
      ∙ ap suc (count_checked-fresh later m' e found r.1 t)
      ∙ ground arith

  -- Once the window has passed, the password decides again, and a success clears the entry.
  pub login-later :
      (a : Attempt) (m : Attempts) (e : Entry)
      → m ip ≡ some e
      → e.first_at + attempt_window_ms < a.0
      → is_accepted js cfg a.1 ≡ true
      → ((login js cfg a.0 ip a.1 m).1 ≡ signed_in (issue_session js cfg a.0))
        × ((login js cfg a.0 ip a.1 m).0 ip ≡ none)
  unfolding login is_throttled checked_login answer_login
  login-later a m e h t r =
      let stale : is_stale a.0 e ≡ true = ground arith in
      rw (h, is_throttled, stale, r, answer_login) (refl, rw (===_refl ip) refl)

  is_throttled-others :
      (now : ℕ) (m : Attempts) (j : Text) → (ip === j) ≡ false → (is_throttled now ip m).0 j ≡ m j
  unfolding is_throttled
  is_throttled-others now m j ne = elim (Option-cases (m ip)) [
    | inl e ↦ rw (e, is_throttled) refl
    | inr (x, e) ↦ elim (Bool-cases (is_stale now x)) [
      | inl old ↦ rw (e, is_throttled, old) (rw ne refl)
      | inr fresh ↦ rw (e, is_throttled, fresh) refl
    ]
  ]

  answer_login-others :
      (now : ℕ) (m : Attempts) (ok : Bool) (j : Text)
      → (ip === j) ≡ false
      → (answer_login js cfg now ip m ok).0 j ≡ m j
  unfolding answer_login record_failure
  answer_login-others now m true j ne = rw ne refl
  answer_login-others now m false j ne = rw ne refl

  checked_login-others :
      (now : ℕ) (password : Value) (p : Attempts × Bool) (j : Text)
      → (ip === j) ≡ false
      → (checked_login js cfg now ip password p).0 j ≡ p.0 j
  unfolding checked_login
  checked_login-others now password (m, true) j ne = refl
  checked_login-others now password (m, false) j ne =
      answer_login-others now m (is_accepted js cfg password) j ne

  pub login-others :
      (a : Attempt) (m : Attempts) (j : Text)
      → (ip === j) ≡ false
      → (login js cfg a.0 ip a.1 m).0 j ≡ m j
  unfolding login
  login-others a m j ne =
      checked_login-others a.0 a.1 (is_throttled a.0 ip m) j ne ∙ is_throttled-others a.0 m j ne
