-- ===== src/CieCallback/Stores.antt =====
-- What the endpoint of satosa/plugins/cieoidc-endpoints/authorization_callback_endpoint.py does to
-- the store of the sessions: a consumption and updates of the session that it consumed.
use pa_sso_proxy.Prelude.{
  ℕ, String, ◌≡◌, refl, ◌∙◌, inl, inr, true, Option, none, some, arith, is_text, Bool-cases,
  Option-cases,
}
use pa_sso_proxy.Result.{Result, ok, err, Result-cases}
use pa_sso_proxy.CieSession.{
  Redis, OidcAuthentication, Model, Invalid, consume_session, update_session,
}
use pa_sso_proxy.CieCallback.Services.{TokenResponse, OidcUser, Failure, Services}
use pa_sso_proxy.CieCallback.Pages.{Context}
use pa_sso_proxy.CieCallback.Exchange.{
  token_request, token_response, verified_tokens, with_tokens, user_of, with_user,
}
use pa_sso_proxy.CieCallback.Endpoint.{
  consume_authorization, update_authorization, conclude, after_tokens, after_response,
  after_consumption, endpoint, consumed,
}

with_tokens_completed :
    (e : OidcAuthentication) (tokens : String × String) (answer : TokenResponse)
    {e' : OidcAuthentication}
    → with_tokens e tokens answer ≡ ok e'
    → e'.completed ≡ e.completed
unfolding with_tokens
with_tokens_completed e tokens answer {e' = e'} h = elim (Option-cases answer.token_type) [
  | inl n ↦ absurd (ground arith)
  | inr (t, h₁) ↦ elim (Option-cases answer.expires_in) [
    | inl n ↦ absurd (ground arith)
    | inr (u, h₂) ↦ ground arith
  ]
]

pub consumed_session :
    (result : Result Invalid (Option OidcAuthentication)) {e : OidcAuthentication}
    → consumed result ≡ some e
    → (e₀ : OidcAuthentication) × (result ≡ ok (some e₀)) × (e.completed ≡ true)
unfolding consumed
consumed_session (err invalid) h = absurd (ground arith)
consumed_session (ok none) h = absurd (ground arith)
consumed_session (ok (some e₀)) h = (e₀, refl, ground arith)

module _ (r : Redis) (m : Model r) (ttl : ℕ) (sv : Services) (now : ℕ) where
  -- A predicate that an update with a completed session keeps.
  module _ (P : r.State → Type 0)
      (update : (e : OidcAuthentication) (st : r.State)
        → e.completed ≡ true
        → P st
        → P (update_session r m ttl e now st)) where
    authorization_keeps :
        (e : OidcAuthentication) (st : r.State)
        → e.completed ≡ true
        → P st
        → P (update_authorization r m ttl sv now e st)
    unfolding update_authorization
    authorization_keeps e st c h = elim (Bool-cases (sv.is_valid e)) [
      | inl valid ↦ rw valid (update e st c h)
      | inr invalid ↦ rw invalid h
    ]

    conclude_keeps :
        (context : Context) (e : OidcAuthentication) (answer : TokenResponse) (st : r.State)
        (user : Result Failure OidcUser)
        → e.completed ≡ true
        → P st
        → P (conclude r m ttl sv now context e answer st user).1
    unfolding conclude with_user
    conclude_keeps context e answer st (err f) c h = h
    conclude_keeps context e answer st (ok user) c h =
        authorization_keeps (with_user e answer user) st c h

    tokens_keeps :
        (context : Context) (answer : TokenResponse) (st : r.State) (e : OidcAuthentication)
        (tokens : String × String)
        → e.completed ≡ true
        → P st
        → P (after_tokens r m ttl sv now context answer st (with_tokens e tokens answer)).1
    unfolding after_tokens
    tokens_keeps context answer st e tokens c h =
        elim (Result-cases (with_tokens e tokens answer)) [
          | inr (f, e₁) ↦ rw (after_tokens, e₁) h
          | inl (e', e₁) ↦
              let c' = with_tokens_completed e tokens answer e₁ ∙ c in
              rw (after_tokens, e₁)
                (conclude_keeps context e' answer (update_authorization r m ttl sv now e' st)
                  (user_of sv e') c' (authorization_keeps e' st c' h))
        ]

    response_keeps :
        (context : Context) (e : OidcAuthentication) (st : r.State)
        (answer : Result Failure TokenResponse)
        → e.completed ≡ true
        → P st
        → P (after_response r m ttl sv now context e st answer).1
    unfolding after_response
    response_keeps context e st (err f) c h = h
    response_keeps context e st (ok answer) c h =
        elim (Result-cases (verified_tokens sv e answer)) [
          | inr (f, e₁) ↦ rw (after_response, e₁) h
          | inl (tokens, e₁) ↦ rw (after_response, e₁) (tokens_keeps context answer st e tokens c h)
        ]

    pub consumption_keeps :
        (client_id : String) (context : Context) (e : OidcAuthentication) (st : r.State)
        → e.completed ≡ true
        → P st
        → P (after_consumption r m ttl sv now client_id context (some e, st)).store
    unfolding after_consumption
    consumption_keeps client_id context e st c h =
        elim (Result-cases (token_request sv client_id context e)) [
          | inr (f, e₁) ↦ rw (after_consumption, e₁) h
          | inl (request, e₁) ↦
              rw (after_consumption, e₁)
                (response_keeps context (record e { code = context.code }) st
                  (token_response sv request) c h)
        ]

  pub endpoint_keeps :
      (P : r.State → Type 0)
      → ((e : OidcAuthentication) (st : r.State)
          → e.completed ≡ true
          → P st
          → P (update_session r m ttl e now st))
      → ((s : String) (st : r.State) → P st → P (consume_session r m ttl s now st).1)
      → (client_id : String) (context : Context) (st : r.State) → P st
      → P (endpoint r m ttl sv now client_id context st).store
  unfolding endpoint
  endpoint_keeps P update consume client_id context st h =
      elim (Bool-cases (is_text context.error)) [
        | inl t ↦ rw (endpoint, t) h
        | inr f ↦ elim (Bool-cases context.satosa_base) [
          | inr f' ↦ rw (endpoint, f, f') h
          | inl t' ↦ rw (endpoint, f, t') (from_state context.state)
        ]
      ]
    where
      from_result :
          (o : Option OidcAuthentication × r.State)
          → ((e : OidcAuthentication) → o.0 ≡ some e → e.completed ≡ true)
          → P o.1
          → P (after_consumption r m ttl sv now client_id context o).store
      from_result (none, st') c h' = h'
      from_result (some e, st') c h' =
          consumption_keeps P update client_id context e st' (c e refl) h'

      from_state :
          (o : Option String)
          → P
              (after_consumption r m ttl sv now client_id context
                (consume_authorization r m ttl sv now o st)).store
      from_state none = h
      from_state (some s) =
          from_result (consume_authorization r m ttl sv now (some s) st)
            (λ e found. (consumed_session (consume_session r m ttl s now st).0 found).2)
            (consume s st h)
