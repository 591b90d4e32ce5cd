-- ===== src/Login/Factors.antt =====
-- Authenticated sessions and the second factor (config-api/app/main.py and routes/login_2fa.py).
use pa_sso_proxy.Prelude.{
  ℕ, ◌+◌, ◌*◌, ◌/◌, ◌≤◌, String, ◌≡◌, ◌≢◌, refl, sym, ap, subst, ◌⊎◌, inl, inr, true, false, Option,
  none, some, List, [], ◌∷◌, arith, Option-cases, eq_iff,
}
use pa_sso_proxy.Result.{ok}
use pa_sso_proxy.RateLimiter.{second}
use pa_sso_proxy.Totp.{
  AdminTotp, Value, text, int, Pending, dict, no_dict, verify_code, get_or_create_pending,
  pending_is_valid, pending_ttl_seconds,
}
use pa_sso_proxy.Login.{
  Config, World, Session, no_session, Request, pending_user, login_post, is_confirmed,
}
use pa_sso_proxy.Login.TwoFactor.Accepted.{
  not-Enters-twofa_page, not-Enters-setup_page, twofa_submit-Enters, setup_submit-Enters,
}
use pa_sso_proxy.Login.TwoFactor.Cookie.{
  session_of, Leaves, twofa_page-Leaves, setup_page-Leaves, twofa_submit-Leaves,
  setup_submit-Leaves,
}
use pa_sso_proxy.Login.Calls.{
  Call, get_login, post_logout, get_twofa, get_setup, post_login, post_twofa, post_setup, handle,
}

-- A call of one cookie, with its request and the database that it finds.
pub record Event : Type 0 where
  pub request : Request
  pub call : Call
  pub world : World

-- The calls of one cookie, the latest first.
abbrev pub History : Type 0
History = List Event

-- The administrator's password was posted in second `t`.
abbrev pub IsPassword : Config → ℕ → Request → Call → Type 0
IsPassword c t r (post_login username password) =
    (username ≡ c.admin_user) × (password ≡ c.admin_password) × (t ≡ r.now / second)
IsPassword c t r _ = ⊥

abbrev pub PasswordAt : Config → ℕ → History → Type 0
PasswordAt c t [] = ⊥
PasswordAt c t (event ∷ past) = IsPassword c t event.request event.call ⊎ PasswordAt c t past

-- A code was posted that `verify_code` accepts for the row of the database: for the confirmed row,
-- or at the enrolment for the row that is not confirmed, or that get_or_create_pending makes.
abbrev pub IsCode : Config → Event → Call → Type 0
IsCode c event (post_twofa code) =
    (row : AdminTotp) × (row' : AdminTotp) × (event.world.totp ≡ some row)
    × (row.confirmed_at ≢ none)
    × (verify_code c.crypto row code event.request.now ≡ ok (true, row'))
IsCode c event (post_setup code) =
    (row : AdminTotp) × (row' : AdminTotp) × (secret : String) × (is_confirmed event.world.totp
      ≡ false)
    × (get_or_create_pending c.crypto event.world.totp event.request.secret event.request.entropy
        ≡ ok (row, secret))
    × (verify_code c.crypto row code event.request.now ≡ ok (true, row'))
IsCode c event _ = ⊥

-- The password, and at most `pending_ttl_seconds` later a code.
abbrev pub BothFactors : Config → History → Type 0
BothFactors c [] = ⊥
BothFactors c (event ∷ past) =
    (IsCode c event event.call
      × ((t : ℕ) × PasswordAt c t past
          × (t * second ≤ event.request.now)
          × (event.request.now ≤ t * second + pending_ttl_seconds * second)))
    ⊎ BothFactors c past

-- The sessions that a cookie can hold; other cookies change the database between its calls.
pub data Cookie (c : Config) : History → Session → Type 0 where
  fresh : Cookie c [] no_session
  next :
      {past : History} {s : Session}
      → Cookie c past s
      → (r : Request) (call : Call) (w : World)
      → Cookie c
          (record { request = r; call = call; world = w } ∷ past)
          (handle c r call w s).session

abbrev PendingFrom : Config → History → Option Pending → Type 0
PendingFrom c past none = Unit
PendingFrom c past (some no_dict) = ⊥
PendingFrom c past (some (dict user ts)) =
    (user ≡ text c.admin_user) × ((t : ℕ) × (ts ≡ int t) × PasswordAt c t past)

abbrev UserFrom : Config → History → Option Pending → Option Value → Type 0
UserFrom c past pending none = Unit
UserFrom c past pending (some user) =
    (user ≡ text c.admin_user) × (pending ≡ none) × BothFactors c past

record Traced (c : Config) (past : History) (s : Session) : Type 0 where
  pending : PendingFrom c past s.pending_2fa
  entered : UserFrom c past s.pending_2fa s.user

PendingFrom-cons :
    (c : Config) (past : History) (event : Event) (p : Option Pending)
    → PendingFrom c past p
    → PendingFrom c (event ∷ past) p
PendingFrom-cons c past event none h = tt
PendingFrom-cons c past event (some no_dict) h = h
PendingFrom-cons c past event (some (dict user ts)) (u, (t, e, at)) = (u, (t, e, inr at))

UserFrom-cons :
    (c : Config) (past : History) (event : Event) (p : Option Pending) (u : Option Value)
    → UserFrom c past p u
    → UserFrom c (event ∷ past) p u
UserFrom-cons c past event p none h = tt
UserFrom-cons c past event p (some user) (u, e, both) = (u, e, inr both)

Traced-cons :
    (c : Config) (past : History) (event : Event) (s : Session)
    → Traced c past s
    → Traced c (event ∷ past) s
Traced-cons c past event s h = record {
  pending = PendingFrom-cons c past event s.pending_2fa h.pending;
  entered = UserFrom-cons c past event s.pending_2fa s.user h.entered;
}

Traced-no_session : (c : Config) (past : History) → Traced c past no_session
Traced-no_session c past = record { pending = tt; entered = tt }

-- The user of a valid pending login posted the password at most `pending_ttl_seconds` ago.
pending_user-PasswordAt :
    (c : Config) (past : History) (s : Session) (now : ℕ) (user : Value) (p : Option Pending)
    → s.pending_2fa ≡ p
    → PendingFrom c past p
    → pending_user s now ≡ some user
    → (user ≡ text c.admin_user)
      × ((t : ℕ) × PasswordAt c t past
          × (t * second ≤ now)
          × (now ≤ t * second + pending_ttl_seconds * second))
unfolding pending_user pending_is_valid
pending_user-PasswordAt c past s now user none e h q = absurd (ground arith)
pending_user-PasswordAt c past s now user (some no_dict) e h q = absurd h
pending_user-PasswordAt c past s now user (some (dict u ts)) e (g, (t, i, at)) q =
    (ground arith, (t, at, ground arith, ground arith))

pending_user-none : (s : Session) (now : ℕ) → s.pending_2fa ≡ none → pending_user s now ≡ none
unfolding pending_user
pending_user-none s now e = ground arith

module _ (c : Config) (past : History) (event : Event) where
  Traced-session_of :
      (s s' : Session) (user : Value)
      → Traced c past s
      → pending_user s event.request.now ≡ some user
      → s' ≡ session_of event.request user
      → IsCode c event event.call
      → Traced c (event ∷ past) s'
  Traced-session_of s s' user h p e code =
      let (admin, since) =
        pending_user-PasswordAt c past s event.request.now user s.pending_2fa refl h.pending p in
      subst (Traced c (event ∷ past)) (sym e)
        (record { pending = tt; entered = (admin, refl, inl (code, since)) })

  -- A call that leaves the cookie as `Leaves` says keeps the invariant.
  Traced-Leaves :
      (s s' : Session)
      → Traced c past s
      → Leaves event.request s s'
      → (s.user ≡ none → s'.user ≢ none → IsCode c event event.call)
      → Traced c (event ∷ past) s'
  Traced-Leaves s s' h (inl e) code = subst (Traced c _) (sym e) (Traced-cons c past event s h)
  Traced-Leaves s s' h (inr (inl e)) code = subst (Traced c _) (sym e) (Traced-no_session c _)
  Traced-Leaves s s' h (inr (inr e)) code = elim (Option-cases (pending_user s event.request.now)) [
    | inl p ↦ absurd (rw p at e)
    | inr (user, p) ↦
        let e₁ : s' ≡ session_of event.request user = rw p at e in
        elim (Option-cases s.user) [
          | inl q ↦ Traced-session_of s s' user h p e₁ (code q (λ z. ground arith))
          | inr (v, q) ↦
              let none_pending = (rw q at h.entered).1 in
              ground (arith, pending_user-none s event.request.now none_pending)
        ]
  ]

-- What the password's form leaves in the cookie while the second factor is enabled.
abbrev Posts : Config → Request → String → String → Session → Session → Type 0
Posts c r username password s s' =
    (s' ≡ s)
    ⊎ (username ≡ c.admin_user)
      × (password ≡ c.admin_password)
      × (s'
          ≡ record no_session { pending_2fa = some (dict (text username) (int (r.now / second))) })

login_post-Posts :
    (c : Config) (r : Request) (username password : String) (w : World) (s : Session)
    → c.twofa_enabled ≡ true
    → Posts c r username password s (login_post c r username password w s).session
unfolding login_post
login_post-Posts c r username password w s enabled =
    ground (arith, eq_iff username c.admin_user, eq_iff password c.admin_password)

module _ (c : Config) (enabled : c.twofa_enabled ≡ true) (past : History) (r : Request) where
  abbrev at : Call → World → Event
  at call w = record { request = r; call = call; world = w }

  Traced-Posts :
      (username password : String) (w : World) (s s' : Session)
      → Traced c past s
      → Posts c r username password s s'
      → Traced c (at (post_login username password) w ∷ past) s'
  Traced-Posts username password w s s' h (inl e) =
      subst (Traced c _) (sym e) (Traced-cons c past (at (post_login username password) w) s h)
  Traced-Posts username password w s s' h (inr (u, p, e)) =
      subst (Traced c _) (sym e)
        (record { pending = (ap text u, (r.now / second, refl, inl (u, p, refl))); entered = tt })

  Traced-handle :
      (call : Call) (w : World) (s : Session)
      → Traced c past s
      → Traced c (at call w ∷ past) (handle c r call w s).session
  unfolding handle
  Traced-handle get_login w s h = Traced-cons c past (at get_login w) s h
  Traced-handle post_logout w s h = Traced-no_session c _
  Traced-handle (post_login username password) w s h =
      Traced-Posts username password w s _ h (login_post-Posts c r username password w s enabled)
  Traced-handle get_twofa w s h =
      Traced-Leaves c past (at get_twofa w) s _ h (twofa_page-Leaves c r w s)
        (λ q n. absurd (not-Enters-twofa_page c r w s (q, n)))
  Traced-handle get_setup w s h =
      Traced-Leaves c past (at get_setup w) s _ h (setup_page-Leaves c r w s)
        (λ q n. absurd (not-Enters-setup_page c r w s (q, n)))
  Traced-handle (post_twofa code) w s h =
      Traced-Leaves c past (at (post_twofa code) w) s _ h (twofa_submit-Leaves c r code w s) λ q n.
        let (user, row, _, found, confirmed, passed) = twofa_submit-Enters c r w s code (q, n) in
        (row, passed.row', found, confirmed, passed.accepted)
  Traced-handle (post_setup code) w s h =
      Traced-Leaves c past (at (post_setup code) w) s _ h (setup_submit-Leaves c r code w s) λ q n.
        let (user, row, _, open_row, (secret, got), passed) =
          setup_submit-Enters c r w s code (q, n) in
        (row, passed.row', secret, open_row, got, passed.accepted)

Cookie-Traced :
    (c : Config) (past : History) (s : Session)
    → c.twofa_enabled ≡ true
    → Cookie c past s
    → Traced c past s
Cookie-Traced c past s enabled fresh = Traced-no_session c []
Cookie-Traced c past s enabled (next {past = before} {s = s₀} k r call w) =
    Traced-handle c enabled before r call w s₀ (Cookie-Traced c before s₀ enabled k)

-- With the second factor enabled, whatever calls a cookie has gone through and whatever the
-- database held at each of them, an authenticated session belongs to the administrator, has no
-- pending login, and its history has the right password and then, at most 300 seconds later, a code
-- that `verify_code` accepted for the row which the database held at that call: the confirmed one,
-- or at the enrolment the pending one.
pub both_factors :
    (c : Config) (past : History) (s : Session) (user : Value)
    → c.twofa_enabled ≡ true
    → Cookie c past s
    → s.user ≡ some user
    → (user ≡ text c.admin_user) × (s.pending_2fa ≡ none) × BothFactors c past
both_factors c past s user enabled k e =
    let h = (Cookie-Traced c past s enabled k).entered in rw e at h
