-- ===== src/RateLimiter.antt =====
-- config-api/app/rate_limiter.py and the table login_attempts of models/login_attempt.py.
-- Times are microseconds since the epoch; `since` and `cutoff` stop at 0 where the source's would
-- lie before the epoch, which compares the same with every recorded time.
pub mod Ban
pub mod Cleanup
pub mod Lockout
mod Tests
use pa_sso_proxy.Prelude.{
  ℕ, ◌+◌, ◌-◌, ◌*◌, ◌/◌, String, Bool, true, false, not, ◌&&◌, Option, none, some, List, [], ◌∷◌,
  ◌++◌, ltb, leb, str_eq, if◌then◌else◌, filter, count,
}

abbrev pub second : ℕ
second = 1000000

abbrev pub minute : ℕ
minute = 60000000

abbrev pub day : ℕ
day = 86400000000

pub record LoginAttempt : Type 0 where
  pub ip_address : String
  pub attempted_at : ℕ

-- MAX_ATTEMPTS, BAN_MINUTES and WINDOW_MINUTES
pub record Limits : Type 0 where
  pub max_attempts : ℕ
  pub ban_minutes : ℕ
  pub window_minutes : ℕ

abbrev pub default_limits : Limits
default_limits = record { max_attempts = 5; ban_minutes = 15; window_minutes = 10 }

unfoldable pub from_ip : String → LoginAttempt → Bool
from_ip ip a = str_eq a.ip_address ip

-- the WHERE clause of the count
unfoldable pub in_window : Limits → String → ℕ → LoginAttempt → Bool
unfolding from_ip
in_window limits ip now a =
    from_ip ip a && leb (now - limits.window_minutes * minute) a.attempted_at

later : ℕ → Option ℕ → ℕ
later t none = t
later t (some u) = if ltb t u then u else t

-- ORDER BY attempted_at DESC LIMIT 1
unfoldable pub last_attempt : String → List LoginAttempt → Option ℕ
unfolding later from_ip
last_attempt ip [] = none
last_attempt ip (a ∷ rows) =
    let rest = last_attempt ip rows in
    if from_ip ip a then some (later a.attempted_at rest) else rest

-- `max(1, remaining)`, with `remaining` rounded down to whole minutes
minutes_left : ℕ → ℕ
minutes_left span = if ltb 1 (span / minute) then span / minute else 1

ban_until : Limits → ℕ → Option ℕ → Bool × ℕ
unfolding minutes_left
ban_until limits now none = (false, 0)
ban_until limits now (some last) =
    let expiry = last + limits.ban_minutes * minute in
    if ltb now expiry then (true, minutes_left (expiry - now)) else (false, 0)

unfoldable pub is_ip_banned : Limits → List LoginAttempt → String → ℕ → Bool × ℕ
unfolding ban_until
is_ip_banned limits rows ip now =
    if leb limits.max_attempts (count (in_window limits ip now) rows)
    then ban_until limits now (last_attempt ip rows)
    else (false, 0)

-- The new row carries the database's default `stamp`; the rows older than a day go.
unfoldable pub record_failed_attempt : List LoginAttempt → String → ℕ → ℕ → List LoginAttempt
record_failed_attempt rows ip stamp now =
    filter (λ a. not (ltb a.attempted_at (now - day)))
      (rows ++ record { ip_address = ip; attempted_at = stamp } ∷ [])

unfoldable pub clear_attempts : List LoginAttempt → String → List LoginAttempt
unfolding from_ip
clear_attempts rows ip = filter (λ a. not (from_ip ip a)) rows
