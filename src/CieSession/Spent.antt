-- ===== src/CieSession/Spent.antt =====
-- Repeated calls of consume_session in satosa/plugins/redis_storage.py for one state.
use pa_sso_proxy.Prelude.{
  ℕ, String, ◌≡◌, refl, sym, ap, ◌∙◌, subst, inl, inr, true, none, some, arith, Bool-cases,
  Option-cases,
}
use pa_sso_proxy.Result.{ok}
use pa_sso_proxy.CieSession.{
  sess, state, used, Redis, RedisLaws, OidcAuthentication, Model, ModelLaws, non_empty,
  already_used, remaining, update_session, consume_entity, consume_doc, consume_marked, consume_sid,
  consume_session,
}
use pa_sso_proxy.CieSession.Commands.{
  Closed, Closes, Sound, Closes-refl, Closes-trans, set_nx-Closes, set_sess-Closes, get-set_sess,
}
use pa_sso_proxy.CieSession.Consume.{consume_keeps, non_empty-some, Success, consume-Success}
use pa_sso_proxy.CieSession.Once.{
  Operations, Later, Spent, set_nx-Sound, Operations-Sound, Closes-Spent, Later-Spent,
}

module _ (r : Redis) (m : Model r) (ttl : ℕ) (rl : RedisLaws r) (ml : ModelLaws r m) where
  Closed-consume :
      (sid : String) (now : ℕ) (st : r.State)
      → Closed r m rl (r.get (sess sid) now st)
      → (consume_doc r m ttl now st (non_empty r m (r.get (sess sid) now st))).0 ≡ ok none
  unfolding consume_doc consume_entity non_empty already_used
  Closed-consume sid now st (inl gone) = rw gone refl
  Closed-consume sid now st (inr (e, found, done)) =
      rw found (ground (arith, ml.dump_text e, ml.validate-dump e))

  Spent-consume :
      (s : String) (now : ℕ) (st : r.State)
      → Spent r m ttl rl s now st
      → (consume_session r m ttl s now st).0 ≡ ok none
  unfolding consume_session consume_sid consume_marked
  Spent-consume s now st h = elim (Option-cases (non_empty r m (r.get (state s) now st))) [
    | inl e ↦ ground arith
    | inr (b, e) ↦
        let sid = r.decode b in
        let ex = remaining r m ttl (sess sid) now st in
        let p = r.set_nx (used s) (r.encode "1") ex now st in
        let closed : Closed r m rl (r.get (sess sid) now p.1) =
          Closes-Spent r m ttl rl s now st p.1 (set_nx-Closes r m rl s (r.encode "1") ex now st) h
            now (omega arith) b
            ((set_nx-Closes r m rl s (r.encode "1") ex now st now (omega arith)).0 s
              ∙ non_empty-some r m _ e) in
        elim (Bool-cases p.0) [
          | inr lost ↦ ground arith
          | inl won ↦ ground (arith, Closed-consume sid now p.1 closed)
        ]
  ]

  consume-Closes :
      (s : String) (now : ℕ) (st after : r.State) (e : OidcAuthentication)
      → consume_session r m ttl s now st ≡ (ok (some e), after)
      → Closes r m rl now st after
  consume-Closes s now st after e h = subst (Closes r m rl now st) (ap (λ q. q.1) h) (
      consume_keeps r m ttl now (Closes r m rl now st)
        (λ s' v ex st' c. Closes-trans r m rl now st st' _ c (set_nx-Closes r m rl s' v ex now st'))
        (λ e' ex st' d c.
          Closes-trans r m rl now st st' _ c (set_sess-Closes r m rl e' ex now st' d))
        s st (Closes-refl r m rl now st))

  -- The session that is returned has the id under which it was found.
  Success-id :
      (s : String) (now : ℕ) (st after : r.State) (e : OidcAuthentication)
      → Sound r m rl now st
      → (k : Success r m ttl now st e after s) → e.id ≡ (r.decode k.sid_bytes)
  Success-id s now st after e sound k =
      elim (set_nx-Sound r m ttl rl now s (r.encode "1")
        (remaining r m ttl (sess (r.decode k.sid_bytes)) now st) st sound now (omega arith)
        (r.decode k.sid_bytes)) [
          | inl gone ↦ absurd (ground (arith, k.of_sess))
          | inr (e₁, found, id) ↦
              let doc : k.doc ≡ m.dump e₁ = ground (arith, k.of_sess) in
              ground (arith, ap m.validate doc ∙ ml.validate-dump e₁, k.validated, k.result)
        ]

  Success-Spent :
      (s : String) (now : ℕ) (st after : r.State) (e : OidcAuthentication)
      → Sound r m rl now st
      → consume_session r m ttl s now st ≡ (ok (some e), after)
      → Spent r m ttl rl s now after
  unfolding update_session
  Success-Spent s now st after e sound h =
      let k = consume-Success r m ttl now st e after s h in
      let p =
        r.set_nx (used s) (r.encode "1") (remaining r m ttl (sess (r.decode k.sid_bytes)) now st)
          now st in
      let id : e.id ≡ (r.decode k.sid_bytes) = Success-id s now st after e sound k in
      let cl = consume-Closes s now st after e h in
      let completed : e.completed ≡ true = ground (arith, k.result) in
      λ t le b found.
        let at : r.get (state s) t st ≡ some b = sym ((cl t le).0 s) ∙ found in
        let same : (r.decode k.sid_bytes) ≡ r.decode b = elim (rl.get_later (state s) now t st le) [
          | inl kept ↦ ground (arith, k.of_state)
          | inr gone ↦ absurd (ground arith)
        ] in
        let closed : Closed r m rl (r.get (sess e.id) t (update_session r m ttl e now p.1)) =
          elim (get-set_sess r m rl e _ now t p.1 le) [
            | inl gone ↦ inl gone
            | inr kept ↦ inr (e, kept, completed)
          ] in
        subst (λ j. Closed r m rl (r.get (sess j) t after)) (id ∙ same)
          (subst (λ a. Closed r m rl (r.get (sess e.id) t a)) (sym k.written) closed)

  -- With the laws of Redis and of the model, and a storage that began empty: once a consumption has
  -- returned the session of a state, every later one for that state returns none, whatever the
  -- storage does in between: time, any consumption, the callback's updates of completed sessions,
  -- and new sessions with another state and another id.
  pub consume_once :
      (s : String) (now : ℕ) (st after : r.State) (e : OidcAuthentication)
      → Operations r m ttl now st
      → consume_session r m ttl s now st ≡ (ok (some e), after)
      → (t : ℕ) (later : r.State) → Later r m ttl s now after t later
      → (consume_session r m ttl s t later).0 ≡ ok none
  consume_once s now st after e o h t later l = Spent-consume s t later (
      Later-Spent r m ttl rl s now after
        (Success-Spent s now st after e (Operations-Sound r m ttl rl now st o) h) t later l)
