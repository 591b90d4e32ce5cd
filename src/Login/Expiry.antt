-- ===== src/Login/Expiry.antt =====
-- The session's idle limit: `admin_session_expiry_middleware` of config-api/app/main.py.
use Prim.Native.String.{String}
use text.Mathlib.Text.{starts_with}
use pa_sso_proxy.Prelude.{
  ℕ, zero, suc, ◌+◌, ◌/◌, ◌≤◌, ◌<◌, ◌≡◌, Bool, true, false, Option, none, some, ltb, if◌then◌else◌,
  not, ◌&&◌, ◌||◌, str_eq, arith, Option-cases, inl, inr,
}
use pa_sso_proxy.RateLimiter.{second}
use pa_sso_proxy.Totp.{is_truthy}
use pa_sso_proxy.Login.{Config, Session, no_session}

pub data Gate : Type 0 where
  -- the request goes on, with this session
  pass : Session → Gate
  -- a redirect to /admin/login?timeout=1, with this session
  expired : Session → Gate

-- The paths that the middleware watches.
unfoldable pub is_watched : String → Bool
is_watched path =
    starts_with path "/admin"
    && not (
        starts_with path "/admin/login"
        || starts_with path "/admin/static"
        || str_eq path "/admin/logout")

-- `last_activity and (now - last_activity > SESSION_MAX_AGE)`
is_idle : Config → ℕ → Option ℕ → Bool
is_idle c now none = false
is_idle c now (some zero) = false
is_idle c now (some (suc t)) = ltb (suc t + c.session_max_age) now

unfoldable pub has_user : Session → Bool
has_user s = elim s.user [ none ↦ false | some user ↦ is_truthy user ]

unfoldable pub check_expiry : Config → ℕ → String → Session → Gate
unfolding is_idle has_user
check_expiry c now path s =
    let seconds = now / second in
    if is_watched path && has_user s
    then (if is_idle c seconds s.last_activity
        then expired no_session
        else pass (record s { last_activity = some seconds }))
    else pass s

-- A session that a watched request let through is dropped by the next watched request, if more than
-- `session_max_age` seconds of the clock lie between the two; otherwise that one goes through and
-- moves the time of the last activity. The first request is later than second 0 of the clock.
pub check_expiry_next :
    (c : Config) (first later : ℕ) (path path' : String) (s s' : Session)
    → is_watched path ≡ true
    → is_watched path' ≡ true
    → has_user s ≡ true
    → second ≤ first
    → check_expiry c first path s ≡ pass s'
    → (first / second + c.session_max_age < later / second
        → check_expiry c later path' s' ≡ expired no_session)
      × (later / second ≤ first / second + c.session_max_age
          → check_expiry c later path' s'
            ≡ pass (record s { last_activity = some (later / second) }))
unfolding check_expiry
check_expiry_next c first later path path' s s' watched watched' user started h =
    elim (Option-cases s.last_activity) [
      | inl q ↦ (ground arith, ground arith)
      | inr (t, q) ↦ (ground arith, ground arith)
    ]
