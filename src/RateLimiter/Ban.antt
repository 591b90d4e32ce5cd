-- ===== src/RateLimiter/Ban.antt =====
-- What `is_ip_banned` of config-api/app/rate_limiter.py answers.
use pa_sso_proxy.Prelude.{
  ℕ, max, ◌+◌, ◌*◌, ◌≤◌, ◌<◌, String, ◌≡◌, ◌⊎◌, inl, inr, ◌↔◌, true, false, Option, none, some,
  List, [], ◌∷◌, arith, count, All, Option-cases,
}
use pa_sso_proxy.RateLimiter.{
  minute, LoginAttempt, Limits, from_ip, in_window, last_attempt, later, is_ip_banned,
}

-- Some row of `ip` was recorded at a time that satisfies `P`.
abbrev pub AnyRow : String → (ℕ → Type 0) → List LoginAttempt → Type 0
AnyRow ip P [] = ⊥
AnyRow ip P (a ∷ rows) = (from_ip ip a ≡ true) × P a.attempted_at ⊎ AnyRow ip P rows

abbrev After : ℕ → ℕ → Option ℕ → Type 0
After now span none = ⊥
After now span (some t) = now < t + span

module _ (ip : String) (now span : ℕ) where
  After-last_attempt :
      (rows : List LoginAttempt)
      → AnyRow ip (λ t. now < t + span) rows
      → After now span (last_attempt ip rows)
  unfolding last_attempt
  After-last_attempt [] h = elim h [ ]
  After-last_attempt (a ∷ rows) (inl h) = ground arith
  After-last_attempt (a ∷ rows) (inr h) = ground (arith, After-last_attempt rows h)

  AnyRow-last_attempt :
      (rows : List LoginAttempt)
      → After now span (last_attempt ip rows)
      → AnyRow ip (λ t. now < t + span) rows
  unfolding last_attempt
  AnyRow-last_attempt [] h = elim h [ ]
  AnyRow-last_attempt (a ∷ rows) h = ground (arith, AnyRow-last_attempt rows)

-- `is_ip_banned` answers yes exactly when the window holds at least `max_attempts` failures of the
-- address and some failure of the address, in or out of the window, is younger than the ban.
pub is_ip_banned_iff :
    (limits : Limits) (rows : List LoginAttempt) (ip : String) (now : ℕ)
    → ((is_ip_banned limits rows ip now).0 ≡ true) ↔ (
        (limits.max_attempts ≤ count (in_window limits ip now) rows)
        × AnyRow ip (λ t. now < t + limits.ban_minutes * minute) rows)
unfolding is_ip_banned
is_ip_banned_iff limits rows ip now = (
  λ h. (ground arith, AnyRow-last_attempt ip now _ rows (ground arith)),
  λ h. let live = After-last_attempt ip now (limits.ban_minutes * minute) rows h.1 in ground arith,
)

last_attempt-le :
    (ip : String) (now t : ℕ) (rows : List LoginAttempt)
    → All (λ a. a.attempted_at ≤ now) rows
    → last_attempt ip rows ≡ some t
    → t ≤ now
unfolding last_attempt
last_attempt-le ip now t [] h e = cc
last_attempt-le ip now t (a ∷ rows) (h, hs) e = elim (Option-cases (last_attempt ip rows)) [
  | inl q ↦ ground arith
  | inr (u, q) ↦ ground (arith, last_attempt-le ip now u rows hs q)
]

-- A ban announces at least one minute and, if no failure lies in the future, at most `ban_minutes`
-- (one, where that is 0); with no ban the number is 0.
pub is_ip_banned_minutes :
    (limits : Limits) (rows : List LoginAttempt) (ip : String) (now : ℕ)
    → All (λ a. a.attempted_at ≤ now) rows
    → ((is_ip_banned limits rows ip now).0 ≡ true
        → (1 ≤ (is_ip_banned limits rows ip now).1)
          × ((is_ip_banned limits rows ip now).1 ≤ max 1 limits.ban_minutes))
      × ((is_ip_banned limits rows ip now).0 ≡ false → (is_ip_banned limits rows ip now).1 ≡ 0)
unfolding is_ip_banned
is_ip_banned_minutes limits rows ip now h = elim (Option-cases (last_attempt ip rows)) [
  | inl q ↦ (ground arith, ground arith)
  | inr (t, q) ↦ let le = last_attempt-le ip now t rows h q in (ground arith, ground arith)
]

-- A ban ends: whoever waits the announced minutes and one more with no new failure is let in.
pub is_ip_banned_ends :
    (limits : Limits) (rows : List LoginAttempt) (ip : String) (now later : ℕ)
    → (is_ip_banned limits rows ip now).0 ≡ true
    → now + ((is_ip_banned limits rows ip now).1 + 1) * minute ≤ later
    → is_ip_banned limits rows ip later ≡ (false, 0)
unfolding is_ip_banned
is_ip_banned_ends limits rows ip now later h w = elim (Option-cases (last_attempt ip rows)) [
  | inl q ↦ ground arith
  | inr (t, q) ↦ ground arith
]
