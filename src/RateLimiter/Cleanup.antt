-- ===== src/RateLimiter/Cleanup.antt =====
-- The daily cleanup of config-api/app/rate_limiter.py and the answer of `is_ip_banned`.
use pa_sso_proxy.Prelude.{
  ℕ, ◌-◌, ◌*◌, ◌≤◌, ◌<◌, String, ◌≡◌, refl, ap, inl, inr, ◌≢◌, Bool, true, false, not, Option, none,
  some, List, [], ◌∷◌, ◌++◌, arith, ltb, leb, count, filter, Bool-cases, eq_iff, count-append,
  if◌then◌else◌, ◌∙◌,
}
use pa_sso_proxy.RateLimiter.{
  minute, day, LoginAttempt, Limits, from_ip, in_window, last_attempt, is_ip_banned,
  record_failed_attempt,
}

pub count-filter :
    (p q : LoginAttempt → Bool) (rows : List LoginAttempt)
    → ((a : LoginAttempt) → p a ≡ true → q a ≡ true)
    → count p (filter q rows) ≡ count p rows
count-filter p q [] h = refl
count-filter p q (a ∷ rows) h = ground (arith, h a, count-filter p q rows h)

-- A failure in the window of length `window` is younger than the cleanup's cutoff.
pub in_window-survives :
    (limits : Limits) (ip : String) (now clock : ℕ)
    → limits.window_minutes * minute ≤ day
    → clock ≤ now
    → (a : LoginAttempt) → in_window limits ip now a ≡ true
    → not (ltb a.attempted_at (clock - day)) ≡ true
unfolding in_window
in_window-survives limits ip now clock w le a h = ground arith

recent : ℕ → Option ℕ → Option ℕ
recent cutoff none = none
recent cutoff (some t) = if ltb t cutoff then none else some t

last_attempt-filter :
    (ip : String) (cutoff : ℕ) (rows : List LoginAttempt)
    → last_attempt ip (filter (λ a. not (ltb a.attempted_at cutoff)) rows)
      ≡ recent cutoff (last_attempt ip rows)
unfolding last_attempt recent
last_attempt-filter ip cutoff [] = refl
last_attempt-filter ip cutoff (a ∷ rows) = ground (arith, last_attempt-filter ip cutoff rows)

last_attempt-append :
    (ip : String) (b : LoginAttempt) (rows : List LoginAttempt)
    → from_ip ip b ≡ false
    → last_attempt ip (rows ++ b ∷ []) ≡ last_attempt ip rows
unfolding last_attempt
last_attempt-append ip b [] h = ground arith
last_attempt-append ip b (a ∷ rows) h = ground (arith, last_attempt-append ip b rows h)

abbrev IsSince : ℕ → Option ℕ → Type 0
IsSince since none = ⊥
IsSince since (some t) = since ≤ t

last_attempt-IsSince :
    (limits : Limits) (ip : String) (now : ℕ) (rows : List LoginAttempt)
    → 0 < count (in_window limits ip now) rows
    → IsSince (now - limits.window_minutes * minute) (last_attempt ip rows)
unfolding last_attempt in_window
last_attempt-IsSince limits ip now [] h = absurd (omega arith)
last_attempt-IsSince limits ip now (a ∷ rows) h =
    ground (arith, last_attempt-IsSince limits ip now rows)

recent_of_IsSince :
    (since cutoff : ℕ) (o : Option ℕ) → IsSince since o → cutoff ≤ since → recent cutoff o ≡ o
unfolding recent
recent_of_IsSince since cutoff none h le = elim h [ ]
recent_of_IsSince since cutoff (some t) h le = ground arith

module _ (limits : Limits) (rows : List LoginAttempt) (ip other : String) (stamp now : ℕ)
    (ne : other ≢ ip) (w : limits.window_minutes * minute ≤ day) where
  count-record_ne :
      count (in_window limits ip now) (record_failed_attempt rows other stamp now)
      ≡ count (in_window limits ip now) rows
  unfolding record_failed_attempt in_window
  count-record_ne =
      count-filter (in_window limits ip now) _ (rows ++ _ ∷ [])
        (in_window-survives limits ip now now w (omega arith))
      ∙ count-append (in_window limits ip now) rows _
      ∙ ground (arith, eq_iff other ip)

  last_attempt-record_ne :
      0 < count (in_window limits ip now) rows
      → last_attempt ip (record_failed_attempt rows other stamp now) ≡ last_attempt ip rows
  unfolding record_failed_attempt from_ip
  last_attempt-record_ne pos =
      last_attempt-filter ip (now - day) (rows ++ _ ∷ [])
      ∙ ap (recent (now - day)) (last_attempt-append ip _ rows (ground (arith, eq_iff other ip)))
      ∙ recent_of_IsSince _ (now - day) (last_attempt ip rows)
          (last_attempt-IsSince limits ip now rows pos) (omega arith)

-- The failures of another address, and the cleanup that comes with them, change nothing for `ip`,
-- where a ban needs at least one failure and the window is at most a day.
pub is_ip_banned-record_ne :
    (limits : Limits) (rows : List LoginAttempt) (ip other : String) (stamp now : ℕ)
    → other ≢ ip
    → 0 < limits.max_attempts
    → limits.window_minutes * minute ≤ day
    → is_ip_banned limits (record_failed_attempt rows other stamp now) ip now
      ≡ is_ip_banned limits rows ip now
unfolding is_ip_banned
is_ip_banned-record_ne limits rows ip other stamp now ne pos w =
    let same = count-record_ne limits rows ip other stamp now ne w in
    elim (Bool-cases (leb limits.max_attempts (count (in_window limits ip now) rows))) [
      | inl few ↦
          rw (same, last_attempt-record_ne limits rows ip other stamp now ne w (ground arith))
      | inr enough ↦ rw (same, enough)
    ]
