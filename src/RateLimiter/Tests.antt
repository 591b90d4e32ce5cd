-- ===== src/RateLimiter/Tests.antt =====
-- Runs of config-api/app/rate_limiter.py, and the theorems at concrete inputs.
use pa_sso_proxy.Prelude.{
  ℕ, ◌+◌, ◌*◌, ◌≤◌, ◌<◌, String, ◌≡◌, ◌↔◌, refl, true, false, List, [], ◌∷◌, arith, count,
}
use pa_sso_proxy.RateLimiter.{
  minute, LoginAttempt, default_limits, in_window, last_attempt, is_ip_banned,
  record_failed_attempt,
}
use pa_sso_proxy.RateLimiter.Ban.{AnyRow, is_ip_banned_iff, is_ip_banned_ends}
use pa_sso_proxy.RateLimiter.Lockout.{record_all, is_ip_banned-record_all, is_ip_banned_window}

abbrev guest : String
guest = "1.2.3.4"

abbrev start : ℕ
start = 1000 * minute

-- Five failures within one minute.
abbrev burst : List (ℕ × ℕ)
burst =
    (start, start)
    ∷ (start + 1, start + 1)
    ∷ (start + 2, start + 2)
    ∷ (start + 3, start + 3)
    ∷ (start + 4, start + 4)
    ∷ []

abbrev five_rows : List LoginAttempt
five_rows =
    record { ip_address = guest; attempted_at = start }
    ∷ record { ip_address = guest; attempted_at = start + 1 }
    ∷ record { ip_address = guest; attempted_at = start + 2 }
    ∷ record { ip_address = guest; attempted_at = start + 3 }
    ∷ record { ip_address = guest; attempted_at = start + 4 }
    ∷ []

burst_recorded : record_all [] guest burst ≡ five_rows
unfolding record_all record_failed_attempt
burst_recorded = refl

-- The fifth failure bans for a quarter of an hour, and ten minutes later the ban is over.
banned_then_free :
    (is_ip_banned default_limits five_rows guest (start + 4) ≡ (true, 15))
    × (is_ip_banned default_limits five_rows guest (start + 10 * minute + 5) ≡ (false, 0))
unfolding is_ip_banned in_window last_attempt
banned_then_free = (refl, refl)

is_ip_banned_iff_example : ((is_ip_banned default_limits five_rows guest (start + 4)).0 ≡ true) ↔ (
    (5 ≤ count (in_window default_limits guest (start + 4)) five_rows)
    × AnyRow guest (λ t. start + 4 < t + 15 * minute) five_rows)
is_ip_banned_iff_example = is_ip_banned_iff default_limits five_rows guest (start + 4)

is_ip_banned_ends_example :
    is_ip_banned default_limits five_rows guest (start + 20 * minute) ≡ (false, 0)
unfolding is_ip_banned in_window last_attempt
is_ip_banned_ends_example =
    is_ip_banned_ends default_limits five_rows guest (start + 4) (start + 20 * minute) refl
      (omega arith)

is_ip_banned-record_all_example :
    (is_ip_banned default_limits (record_all [] guest burst) guest (start + 4)).0 ≡ true
is_ip_banned-record_all_example =
    is_ip_banned-record_all default_limits [] guest (start + 4) burst (omega arith) (omega arith)
      (omega arith) (omega arith) (omega arith)

is_ip_banned_window_example :
    is_ip_banned default_limits five_rows guest (start + 10 * minute + 5) ≡ (false, 0)
is_ip_banned_window_example =
    is_ip_banned_window default_limits five_rows guest (start + 10 * minute + 5) (omega arith)
      (omega arith)
