-- ===== src/CieSession/Added.antt =====
-- Reads of a session that add_session of satosa/plugins/redis_storage.py has stored.
use pa_sso_proxy.Prelude.{
  ℕ, ◌+◌, ◌≤◌, ◌<◌, ◌≡◌, ◌≢◌, refl, ◌∙◌, true, false, none, some, [], ◌∷◌, eq_iff, arith, lt→ltb,
}
use pa_sso_proxy.Result.{ok}
use pa_sso_proxy.CieSession.{
  sess, state, used, Redis, RedisLaws, OidcAuthentication, Model, ModelLaws, non_empty,
  already_used, remaining, add_session, consume_entity, consume_doc, consume_marked, consume_sid,
  consume_session, get_sessions, sessions_of_doc,
}
use pa_sso_proxy.CieSession.Commands.{state-sess, used-sess, state-used, sess-used}

module _ (r : Redis) (m : Model r) (ttl : ℕ) (rl : RedisLaws r) (ml : ModelLaws r m)
    (e : OidcAuthentication) (now t : ℕ) (st : r.State) (from : now ≤ t)
    (until : t < now + ttl) where
  get_state : r.get (state e.state) t (add_session r m ttl e now st) ≡ some (r.encode e.id)
  unfolding add_session
  get_state =
      rl.get-set (state e.state) (r.encode e.id) ttl now t (r.set (sess e.id) (m.dump e) ttl now st)
        from
      ∙ rw (lt→ltb t (now + ttl) until) refl

  get_sess : r.get (sess e.id) t (add_session r m ttl e now st) ≡ some (m.dump e)
  unfolding add_session
  get_sess =
      rl.get-set_ne (state e.state) (sess e.id) (r.encode e.id) ttl now t
        (r.set (sess e.id) (m.dump e) ttl now st) (state-sess e.state e.id)
      ∙ (rl.get-set (sess e.id) (m.dump e) ttl now t st from ∙ rw (lt→ltb t (now + ttl) until) refl)

  unmarked_still : r.get (used e.state) t (add_session r m ttl e now st) ≡ r.get (used e.state) t st
  unfolding add_session
  unmarked_still =
      rl.get-set_ne (state e.state) (used e.state) (r.encode e.id) ttl now t
        (r.set (sess e.id) (m.dump e) ttl now st) (state-used e.state e.state)
      ∙ rl.get-set_ne (sess e.id) (used e.state) (m.dump e) ttl now t st (sess-used e.id e.state)

  -- With the laws of Redis and of the model: until its time is over, a session that was added with
  -- an id is what get_sessions returns for its state.
  pub get_sessions-add :
      e.id ≢ "" → get_sessions r m e.state t (add_session r m ttl e now st) ≡ ok (e ∷ [])
  unfolding get_sessions sessions_of_doc non_empty
  get_sessions-add named = ground (
    arith,
    get_state,
    get_sess,
    eq_iff e.id "",
    rl.is_empty-encode e.id,
    rl.decode-encode e.id,
    ml.dump_text e,
    ml.validate-dump e,
  )

  -- With the laws of Redis and of the model: until its time is over, a session that was added with
  -- a state and an id, that has not been used and whose state has no marker, is returned by the
  -- first consumption, marked as completed.
  pub consume-add :
      e.id ≢ ""
      → e.state ≢ ""
      → already_used e ≡ false
      → r.get (used e.state) t st ≡ none
      → (consume_session r m ttl e.state t (add_session r m ttl e now st)).0
        ≡ ok (some (record e { completed = true }))
  unfolding consume_session consume_sid consume_marked consume_doc consume_entity non_empty
  consume-add named stated fresh unmarked =
      let st₁ = add_session r m ttl e now st in
      let ex = remaining r m ttl (sess e.id) t st₁ in
      ground (
        arith,
        get_state,
        rl.set_nx-absent (used e.state) (r.encode "1") ex t st₁ (unmarked_still ∙ unmarked),
        rl.get-set_ne (used e.state) (sess e.id) (r.encode "1") ex t t st₁ (used-sess e.state e.id)
            ∙ get_sess,
        eq_iff e.id "",
        rl.is_empty-encode e.id,
        rl.decode-encode e.id,
        eq_iff e.state "",
        ml.dump_text e,
        ml.validate-dump e,
      )
