-- ===== src/RateLimiter/Lockout.antt =====
-- Failures, successes and the window (config-api/app/rate_limiter.py).
use pa_sso_proxy.Prelude.{
  ℕ, ◌+◌, ◌-◌, ◌*◌, ◌≤◌, ◌<◌, String, ◌≡◌, refl, ◌≢◌, true, false, none, List, [], ◌∷◌, ◌++◌, arith,
  count, All, length, eq_refl, eq_iff, count-append, ◌∙◌,
}
use pa_sso_proxy.RateLimiter.{
  minute, day, LoginAttempt, Limits, from_ip, in_window, last_attempt, is_ip_banned,
  record_failed_attempt, clear_attempts,
}
use pa_sso_proxy.RateLimiter.Ban.{AnyRow, is_ip_banned_iff}
use pa_sso_proxy.RateLimiter.Cleanup.{count-filter, in_window-survives}

-- Failures of one address, each with its row's time and the clock of its cleanup.
unfoldable pub record_all : List LoginAttempt → String → List (ℕ × ℕ) → List LoginAttempt
record_all rows ip [] = rows
record_all rows ip ((stamp, clock) ∷ events) =
    record_all (record_failed_attempt rows ip stamp clock) ip events

module _ (limits : Limits) (ip : String) (now : ℕ) (w : limits.window_minutes * minute ≤ day) where
  count-record :
      (rows : List LoginAttempt) (stamp clock : ℕ)
      → clock ≤ now
      → now - limits.window_minutes * minute ≤ stamp
      → count (in_window limits ip now) (record_failed_attempt rows ip stamp clock)
        ≡ count (in_window limits ip now) rows + 1
  unfolding record_failed_attempt in_window from_ip
  count-record rows stamp clock le since =
      count-filter (in_window limits ip now) _ (rows ++ _ ∷ [])
        (in_window-survives limits ip now clock w le)
      ∙ count-append (in_window limits ip now) rows _
      ∙ ground (arith, eq_refl ip)

  count-record_all :
      (rows : List LoginAttempt) (events : List (ℕ × ℕ))
      → All (λ e. (now - limits.window_minutes * minute ≤ e.0) × (e.1 ≤ now)) events
      → count (in_window limits ip now) (record_all rows ip events)
        ≡ count (in_window limits ip now) rows + length events
  unfolding record_all
  count-record_all rows [] h = omega arith
  count-record_all rows ((stamp, clock) ∷ events) ((since, le), h) = omega (
    arith,
    count-record rows stamp clock le since,
    count-record_all (record_failed_attempt rows ip stamp clock) events h,
  )

AnyRow-count :
    (limits : Limits) (ip : String) (now : ℕ) (rows : List LoginAttempt)
    → limits.window_minutes < limits.ban_minutes
    → 0 < count (in_window limits ip now) rows
    → AnyRow ip (λ t. now < t + limits.ban_minutes * minute) rows
unfolding in_window
AnyRow-count limits ip now [] w h = absurd (omega arith)
AnyRow-count limits ip now (a ∷ rows) w h = ground (arith, AnyRow-count limits ip now rows w)

-- After `max_attempts` failures of an address within the window, whatever the table held, the
-- address is banned, where the window is at most a day and shorter than the ban.
pub is_ip_banned-record_all :
    (limits : Limits) (rows : List LoginAttempt) (ip : String) (now : ℕ) (events : List (ℕ × ℕ))
    → limits.window_minutes * minute ≤ day
    → limits.window_minutes < limits.ban_minutes
    → 0 < limits.max_attempts
    → limits.max_attempts ≤ length events
    → All (λ e. (now - limits.window_minutes * minute ≤ e.0) × (e.1 ≤ now)) events
    → (is_ip_banned limits (record_all rows ip events) ip now).0 ≡ true
is_ip_banned-record_all limits rows ip now events w shorter pos enough h =
    let counted = count-record_all limits ip now w rows events h in
    (is_ip_banned_iff limits (record_all rows ip events) ip now).1
      (omega arith, AnyRow-count limits ip now (record_all rows ip events) shorter (omega arith))

last_attempt-clear :
    (ip : String) (rows : List LoginAttempt) → last_attempt ip (clear_attempts rows ip) ≡ none
unfolding last_attempt clear_attempts
last_attempt-clear ip [] = refl
last_attempt-clear ip (a ∷ rows) = ground (arith, last_attempt-clear ip rows)

module _ (ip other : String) (ne : other ≢ ip) where
  last_attempt-clear_ne :
      (rows : List LoginAttempt)
      → last_attempt other (clear_attempts rows ip) ≡ last_attempt other rows
  unfolding last_attempt clear_attempts
  last_attempt-clear_ne [] = refl
  last_attempt-clear_ne (a ∷ rows) =
      ground (arith, last_attempt-clear_ne rows, eq_iff a.ip_address ip, eq_iff a.ip_address other)

  count-clear_ne :
      (limits : Limits) (now : ℕ) (rows : List LoginAttempt)
      → count (in_window limits other now) (clear_attempts rows ip)
        ≡ count (in_window limits other now) rows
  unfolding in_window clear_attempts
  count-clear_ne limits now [] = refl
  count-clear_ne limits now (a ∷ rows) =
      ground
        (arith, count-clear_ne limits now rows, eq_iff a.ip_address ip, eq_iff a.ip_address other)

-- After a success the address is not banned at any time, and the rows of any other address are
-- counted as before.
pub is_ip_banned-clear :
    (limits : Limits) (rows : List LoginAttempt) (ip other : String) (now : ℕ)
    → other ≢ ip
    → (is_ip_banned limits (clear_attempts rows ip) ip now ≡ (false, 0))
      × (is_ip_banned limits (clear_attempts rows ip) other now
          ≡ is_ip_banned limits rows other now)
unfolding is_ip_banned
is_ip_banned-clear limits rows ip other now ne = (
  rw (last_attempt-clear ip rows) (ground arith),
  rw (last_attempt-clear_ne ip other ne rows, count-clear_ne ip other ne limits now rows) refl,
)

count_of_old :
    (limits : Limits) (ip : String) (now : ℕ) (rows : List LoginAttempt)
    → All (λ a. a.ip_address ≡ ip → a.attempted_at < now - limits.window_minutes * minute) rows
    → count (in_window limits ip now) rows ≡ 0
unfolding in_window from_ip
count_of_old limits ip now [] h = refl
count_of_old limits ip now (a ∷ rows) (h, hs) =
    ground (arith, count_of_old limits ip now rows hs, eq_iff a.ip_address ip)

-- A ban never outlasts the window: once every failure of the address is older than
-- `window_minutes`, the address is let in, however long `ban_minutes` is.
pub is_ip_banned_window :
    (limits : Limits) (rows : List LoginAttempt) (ip : String) (now : ℕ)
    → 0 < limits.max_attempts
    → All (λ a. a.ip_address ≡ ip → a.attempted_at < now - limits.window_minutes * minute) rows
    → is_ip_banned limits rows ip now ≡ (false, 0)
unfolding is_ip_banned
is_ip_banned_window limits rows ip now pos h = ground (arith, count_of_old limits ip now rows h)
