-- ===== src/Totp.antt =====
-- config-api/app/admin_2fa.py: the admin's second factor. The table admin_totp has at most the row
-- with id 1, so it is an `Option`. Times are microseconds since the epoch.
pub mod Accept
pub mod Replay
pub mod Enrollment
pub mod Tests
use pa_sso_proxy.Prelude.{
  ℕ, zero, suc, ◌+◌, ◌-◌, ◌*◌, ◌/◌, String, Bool, true, false, not, ◌&&◌, ◌||◌, Option, none, some,
  List, [], ◌∷◌, ◌==◌, ltb, leb, if◌then◌else◌, filter, length, all, str_eq,
}
use pa_sso_proxy.Unicode.{Text, is_digit, is_space, is_ascii, text_eq}
use pa_sso_proxy.RateLimiter.{second}
use pa_sso_proxy.Result.{Result, ok, err, ◌>>=◌}

abbrev pub pending_ttl_seconds : ℕ
pending_ttl_seconds = 300

-- `totp.interval` of pyotp, in microseconds
abbrev pub interval : ℕ
interval = 30 * second

-- The second factor's libraries under one SESSION_SECRET: Fernet (`encrypt` draws its own random
-- value, `decrypt` may refuse a token) and pyotp's codes for the counters from 0 on, none for a secret
-- that is not base32, which raises.
pub record Crypto : Type 0 where
  pub encrypt : ℕ → String → String
  pub decrypt : String → Option String
  pub generate_otp : String → Option (ℕ → Text)

pub data Raised : Type 0 where
  totp_secret_error already_confirmed compare_type_error negative_counter : Raised
  secret_not_base32 : Raised

pub record AdminTotp : Type 0 where
  pub secret_enc : String
  pub confirmed_at : Option ℕ
  pub last_used_counter : Option ℕ

-- A value of the session cookie's JSON, as far as `pending_is_valid` tells values apart.
pub data Value : Type 0 where
  null : Value
  truth : Bool → Value
  int : ℕ → Value
  negative_int : ℕ → Value
  text : String → Value

pub data Pending : Type 0 where
  no_dict : Pending
  dict : Value → Value → Pending

-- Python's truth of a value
unfoldable pub is_truthy : Value → Bool
is_truthy null = false
is_truthy (truth b) = b
is_truthy (int zero) = false
is_truthy (int (suc n)) = true
is_truthy (negative_int n) = true
is_truthy (text s) = not (str_eq s "")

-- `isinstance(ts, int)` and `0 <= now - ts <= PENDING_TTL_SECONDS`; a bool is an int, and
-- `negative_int n` is -(n + 1)
is_fresh : Value → ℕ → Bool
is_fresh (int ts) now =
    leb (ts * second) now && leb now (ts * second + pending_ttl_seconds * second)
is_fresh (negative_int n) now = leb (now + (n + 1) * second) (pending_ttl_seconds * second)
is_fresh (truth b) now =
    let ts = if b then 1 else 0 in
    leb (ts * second) now && leb now (ts * second + pending_ttl_seconds * second)
is_fresh _ now = false

unfoldable pub pending_is_valid : Pending → ℕ → Bool
unfolding is_truthy is_fresh
pending_is_valid no_dict now = false
pending_is_valid (dict user ts) now = is_truthy user && is_fresh ts now

unfoldable pub decrypt_secret : Crypto → String → Result Raised String
decrypt_secret crypto token = elim (crypto.decrypt token) [
  | none ↦ err totp_secret_error
  | some secret ↦ ok secret
]

-- The loop over the window's counters.
unfoldable pub first_match : (ℕ → Text) → Text → ℕ → ℕ → Option ℕ
first_match otp code counter zero = none
first_match otp code counter (suc left) = elim (text_eq (otp counter) code) [
  | true ↦ some counter
  | false ↦ first_match otp code (counter + 1) left
]

-- pyotp refuses a negative counter and then the secret, and compare_digest a text that is not ASCII.
unfoldable pub matching_counter : Crypto → String → Text → ℕ → Result Raised (Option ℕ)
matching_counter crypto secret code now =
    let current = now / interval in
    if current == 0 then err negative_counter else elim (crypto.generate_otp secret) [
      | none ↦ err secret_not_base32
      | some otp ↦
          if all is_ascii code
          then ok (first_match otp code (current - 1) 3)
          else err compare_type_error
    ]

-- `"".join(code.split())`
unfoldable pub without_spaces : Text → Text
without_spaces code = filter (λ c. not (is_space c)) code

is_new : Option ℕ → ℕ → Bool
is_new none counter = true
is_new (some used) counter = ltb used counter

or_now : Option ℕ → ℕ → Option ℕ
or_now none now = some now
or_now (some t) now = some t

unfoldable pub accept : AdminTotp → ℕ → ℕ → AdminTotp
unfolding or_now
accept row counter now = record row {
  last_used_counter = some counter;
  confirmed_at = or_now row.confirmed_at now;
}

unfoldable pub settle : AdminTotp → ℕ → Option ℕ → Result Raised (Bool × AdminTotp)
unfolding is_new accept
settle row now none = ok (false, row)
settle row now (some counter) =
    if is_new row.last_used_counter counter
    then ok (true, accept row counter now)
    else ok (false, row)

unfoldable pub looks_like_code : Text → Bool
looks_like_code code = length code == 6 && all is_digit code

unfoldable pub verify_code : Crypto → AdminTotp → Text → ℕ → Result Raised (Bool × AdminTotp)
verify_code crypto row raw now =
    let code = without_spaces raw in
    if looks_like_code code
    then (do
      secret ← decrypt_secret crypto row.secret_enc
      counter ← matching_counter crypto secret code now
      settle row now counter)
    else ok (false, row)

-- `secret` and `entropy` are what random_base32 and Fernet draw.
fresh_row : Crypto → Option AdminTotp → String → ℕ → AdminTotp
fresh_row crypto none secret entropy = record {
  secret_enc = crypto.encrypt entropy secret;
  confirmed_at = none;
  last_used_counter = none;
}
fresh_row crypto (some row) secret entropy = record row {
  secret_enc = crypto.encrypt entropy secret;
  last_used_counter = none;
}

reuse :
    Crypto → AdminTotp → String → ℕ → Option ℕ → Option String → Result Raised (AdminTotp × String)
unfolding fresh_row
reuse crypto row secret entropy (some t) found = err already_confirmed
reuse crypto row secret entropy none (some found) = ok (row, found)
reuse crypto row secret entropy none none = ok (fresh_row crypto (some row) secret entropy, secret)

unfoldable pub get_or_create_pending :
    Crypto → Option AdminTotp → String → ℕ → Result Raised (AdminTotp × String)
unfolding reuse fresh_row
get_or_create_pending crypto none secret entropy = ok (fresh_row crypto none secret entropy, secret)
get_or_create_pending crypto (some row) secret entropy =
    reuse crypto row secret entropy row.confirmed_at (crypto.decrypt row.secret_enc)

-- The row that remains, and whether one was deleted.
unfoldable pub reset_totp : Option AdminTotp → Option AdminTotp × Bool
reset_totp none = (none, false)
reset_totp (some row) = (none, true)
