-- ===== src/CieCallback/Redeem.antt =====
-- Repeated calls of the endpoint of
-- satosa/plugins/cieoidc-endpoints/authorization_callback_endpoint.py for one state, over the
-- sessions of satosa/plugins/redis_storage.py.
use pa_sso_proxy.Prelude.{
  ℕ, ◌≤◌, String, ◌≡◌, ◌≢◌, refl, ap, inl, inr, true, false, none, some, [], arith, is_text,
  Bool-cases, Option-cases,
}
use pa_sso_proxy.Result.{ok}
use pa_sso_proxy.CieSession.{
  state, Redis, RedisLaws, ModelLaws, OidcAuthentication, Model, consume_session, add_session,
}
use pa_sso_proxy.CieSession.Once.{
  Operations, update, consume, Later, at_once, then_wait, then_add, then_update, then_consume,
}
use pa_sso_proxy.CieSession.Spent.{consume_once}
use pa_sso_proxy.CieCallback.Services.{Services}
use pa_sso_proxy.CieCallback.Pages.{Context, InternalData, authenticated, handle_idp_error}
use pa_sso_proxy.CieCallback.Endpoint.{consumed, consume_authorization, after_consumption, endpoint}
use pa_sso_proxy.CieCallback.Stores.{consumed_session, consumption_keeps, endpoint_keeps}

module _ (r : Redis) (m : Model r) (ttl : ℕ) where
  -- What may follow on a callback for the state `s`: time, logins that begin with another state
  -- and another id, and callbacks with any query and any answers of the provider.
  pub data Callbacks (s : String) (now₀ : ℕ) (st₀ : r.State) : ℕ → r.State → Type 0 where
    no_more : Callbacks s now₀ st₀ now₀ st₀
    and_wait :
        {now : ℕ} {st : r.State}
        → Callbacks s now₀ st₀ now st
        → (t : ℕ) → now ≤ t
        → Callbacks s now₀ st₀ t st
    and_login :
        {now : ℕ} {st : r.State}
        → Callbacks s now₀ st₀ now st
        → (e : OidcAuthentication) → e.state ≢ s
        → ((b : r.Bytes) → r.get (state s) now st ≡ some b → r.decode b ≢ e.id)
        → Callbacks s now₀ st₀ now (add_session r m ttl e now st)
    and_callback :
        {now : ℕ} {st : r.State}
        → Callbacks s now₀ st₀ now st
        → (sv : Services) (client_id : String) (context : Context)
        → Callbacks s now₀ st₀ now (endpoint r m ttl sv now client_id context st).store

  Callbacks-Later :
      (s : String) (now₁ : ℕ) (st₁ : r.State) (now₀ : ℕ) (st₀ : r.State)
      → Later r m ttl s now₁ st₁ now₀ st₀
      → (now : ℕ) (st : r.State) → Callbacks s now₀ st₀ now st
      → Later r m ttl s now₁ st₁ now st
  Callbacks-Later s now₁ st₁ now₀ st₀ l now st no_more = l
  Callbacks-Later s now₁ st₁ now₀ st₀ l now st (and_wait {now = before} c t later) =
      then_wait (Callbacks-Later s now₁ st₁ now₀ st₀ l before st c) t later
  Callbacks-Later s now₁ st₁ now₀ st₀ l now st (and_login {st = before} c e other free) =
      then_add (Callbacks-Later s now₁ st₁ now₀ st₀ l now before c) e other free
  Callbacks-Later s now₁ st₁ now₀ st₀ l now st (and_callback {st = before} c sv client_id context) =
      endpoint_keeps r m ttl sv now (Later r m ttl s now₁ st₁ now)
        (λ e st' done l'. then_update l' e done) (λ s' st' l'. then_consume l' s') client_id context
        before (Callbacks-Later s now₁ st₁ now₀ st₀ l now before c)

  module _ (sv : Services) (now : ℕ) (client_id : String) (context : Context) where
    consuming :
        (s : String) (st : r.State)
        → is_text context.error ≡ false
        → context.satosa_base ≡ true
        → context.state ≡ some s
        → endpoint r m ttl sv now client_id context st
          ≡ after_consumption r m ttl sv now client_id context
              (consumed (consume_session r m ttl s now st).0, (consume_session r m ttl s now st).1)
    unfolding endpoint consume_authorization
    consuming s st f b of_state = rw (endpoint, f, b, of_state, consume_authorization) refl

    -- A call that exchanges a code has consumed the session of its state.
    pub exchange_consumed :
        (s : String) (st : r.State)
        → context.state ≡ some s
        → (endpoint r m ttl sv now client_id context st).requests ≢ []
        → (after : r.State) × (e : OidcAuthentication) × (consume_session r m ttl s now st
            ≡ (ok (some e), after))
          × Later r m ttl s now after now (endpoint r m ttl sv now client_id context st).store
    unfolding endpoint after_consumption
    exchange_consumed s st of_state made = elim (Bool-cases (is_text context.error)) [
      | inl t ↦ absurd (made (ground arith))
      | inr f ↦ elim (Bool-cases context.satosa_base) [
        | inr lost ↦ absurd (made (ground arith))
        | inl b ↦
            let cs = consume_session r m ttl s now st in
            elim (Option-cases (consumed cs.0)) [
              | inl gone ↦ absurd (made (rw (consuming s st f b of_state, gone) refl))
              | inr (e, found) ↦
                  let (e₀, from, done) = consumed_session cs.0 found in
                  (
                    cs.1,
                    e₀,
                    ap (λ o. (o, cs.1)) from,
                    rw (consuming s st f b of_state, found)
                        (consumption_keeps r m ttl sv now (Later r m ttl s now cs.1 now)
                          (λ e' st' d l. then_update l e' d) client_id context e cs.1 done at_once),
                  )
            ]
      ]
    ]

    no_session_no_exchange :
        (s : String) (st : r.State)
        → context.state ≡ some s
        → (consume_session r m ttl s now st).0 ≡ ok none
        → ((endpoint r m ttl sv now client_id context st).requests ≡ [])
          × ((d : InternalData)
              → (endpoint r m ttl sv now client_id context st).reply ≢ authenticated d)
    unfolding endpoint after_consumption handle_idp_error consumed
    no_session_no_exchange s st of_state spent = elim (Bool-cases (is_text context.error)) [
      | inl t ↦ (ground arith, λ d e. ground arith)
      | inr f ↦ elim (Bool-cases context.satosa_base) [
        | inr lost ↦ (ground arith, λ d e. ground arith)
        | inl b ↦ rw (consuming s st f b of_state, spent) (refl, λ d e. ground arith)
      ]
    ]

  -- A callback is one of the histories of the storage's operations.
  pub endpoint-Operations :
      (sv : Services) (now : ℕ) (client_id : String) (context : Context) (st : r.State)
      → Operations r m ttl now st
      → Operations r m ttl now (endpoint r m ttl sv now client_id context st).store
  endpoint-Operations sv now client_id context st o =
      endpoint_keeps r m ttl sv now (Operations r m ttl now) (λ e st' done o'. update o' e)
        (λ s st' o'. consume o' s) client_id context st o

  -- With the laws of Redis and of the model, and a storage that began empty: once a callback has
  -- sent a code to the provider's token endpoint for a state, no later callback for that state
  -- sends one or hands over a user, whatever its query and the provider's answers are, and whatever
  -- happens in between: time, logins that begin with another state and another id, and callbacks.
  pub code_redeemed_once :
      (rl : RedisLaws r) (ml : ModelLaws r m) (s : String) (now : ℕ) (st : r.State)
      → Operations r m ttl now st
      → (sv : Services) (client_id : String) (context : Context) → context.state ≡ some s
      → (endpoint r m ttl sv now client_id context st).requests ≢ []
      → (t : ℕ) (later : r.State)
      → Callbacks s now (endpoint r m ttl sv now client_id context st).store t later
      → (sv' : Services) (client_id' : String) (context' : Context) → context'.state ≡ some s
      → ((endpoint r m ttl sv' t client_id' context' later).requests ≡ [])
        × ((d : InternalData)
            → (endpoint r m ttl sv' t client_id' context' later).reply ≢ authenticated d)
  code_redeemed_once rl ml s now st o sv client_id context of_state made t later c sv' client_id'
        context' of_state' =
      let (after, e, done, l) = exchange_consumed sv now client_id context s st of_state made in
      no_session_no_exchange sv' t client_id' context' s later of_state' (
        consume_once r m ttl rl ml s now st after e o done t later
          (Callbacks-Later s now after now _ l t later c))
