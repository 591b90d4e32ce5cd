-- ===== src/CieSession/Once.antt =====
-- The operations of satosa/plugins/redis_storage.py one after the other, and the state of a session
-- in between.
use pa_sso_proxy.Prelude.{
  ℕ, ◌≤◌, String, ◌≡◌, ◌≢◌, sym, ap, ◌∙◌, subst, inl, inr, true, none, some, arith, Option-cases,
}
use pa_sso_proxy.CieSession.{
  Key, sess, state, used, Redis, RedisLaws, OidcAuthentication, Model, add_session, update_session,
  consume_session,
}
use pa_sso_proxy.CieSession.Commands.{
  Closed, Closes, Sound, set_nx-Closes, set_sess-Closes, set_sess-Sound, set_other-Sound, state_ne,
  sess_ne, state-sess, used-sess, sess-state,
}
use pa_sso_proxy.CieSession.Consume.{consume_keeps}

module _ (r : Redis) (m : Model r) (ttl : ℕ) where
  -- The operations of the storage, at a time that grows.
  pub data Operations : ℕ → r.State → Type 0 where
    begin : (now : ℕ) (st : r.State) → ((t : ℕ) (k : Key) → r.get k t st ≡ none) → Operations now st
    wait : {now : ℕ} {st : r.State} → Operations now st → (t : ℕ) → now ≤ t → Operations t st
    add :
        {now : ℕ} {st : r.State}
        → Operations now st
        → (e : OidcAuthentication) → Operations now (add_session r m ttl e now st)
    update :
        {now : ℕ} {st : r.State}
        → Operations now st
        → (e : OidcAuthentication) → Operations now (update_session r m ttl e now st)
    consume :
        {now : ℕ} {st : r.State}
        → Operations now st
        → (s : String) → Operations now (consume_session r m ttl s now st).1

  -- What may follow on a consumption of the state `s`: time, consumptions, updates of completed
  -- sessions as the callback makes them, and new sessions with another state and another id.
  pub data Later (s : String) (now₀ : ℕ) (st₀ : r.State) : ℕ → r.State → Type 0 where
    at_once : Later s now₀ st₀ now₀ st₀
    then_wait :
        {now : ℕ} {st : r.State}
        → Later s now₀ st₀ now st
        → (t : ℕ) → now ≤ t
        → Later s now₀ st₀ t st
    then_add :
        {now : ℕ} {st : r.State}
        → Later s now₀ st₀ now st
        → (e : OidcAuthentication) → e.state ≢ s
        → ((b : r.Bytes) → r.get (state s) now st ≡ some b → r.decode b ≢ e.id)
        → Later s now₀ st₀ now (add_session r m ttl e now st)
    then_update :
        {now : ℕ} {st : r.State}
        → Later s now₀ st₀ now st
        → (e : OidcAuthentication) → e.completed ≡ true
        → Later s now₀ st₀ now (update_session r m ttl e now st)
    then_consume :
        {now : ℕ} {st : r.State}
        → Later s now₀ st₀ now st
        → (s' : String) → Later s now₀ st₀ now (consume_session r m ttl s' now st).1

  module _ (rl : RedisLaws r) where
    -- The session of the state is gone or closed, now and later.
    abbrev pub Spent : String → ℕ → r.State → Type 0
    Spent s now st =
        (t : ℕ)
        → now ≤ t
        → (b : r.Bytes) → r.get (state s) t st ≡ some b
        → Closed r m rl (r.get (sess (r.decode b)) t st)

    pub set_nx-Sound :
        (now : ℕ) (s : String) (v : r.Bytes) (ex : ℕ) (st : r.State)
        → Sound r m rl now st
        → Sound r m rl now (r.set_nx (used s) v ex now st).1
    set_nx-Sound now s v ex st sound = elim (Option-cases (r.get (used s) now st)) [
      | inl e ↦
          subst (Sound r m rl now) (sym (ap (λ p. p.1) (rl.set_nx-absent (used s) v ex now st e)))
            (set_other-Sound r m rl (used s) v ex now st (used-sess s) sound)
      | inr (w, e) ↦
          subst (Sound r m rl now)
            (sym (ap (λ p. p.1) (rl.set_nx-present (used s) v w ex now st e))) sound
    ]

    pub Operations-Sound : (now : ℕ) (st : r.State) → Operations now st → Sound r m rl now st
    unfolding add_session update_session
    Operations-Sound now st (begin now₀ st₀ empty) = λ t le i. inl (empty t (sess i))
    Operations-Sound now st (wait {now = before} o t₀ later) =
        λ t le i. Operations-Sound before st o t (omega arith) i
    Operations-Sound now st (add {st = before} o e) =
        set_other-Sound r m rl (state e.state) (r.encode e.id) ttl now
          (r.set (sess e.id) (m.dump e) ttl now before) (state-sess e.state)
          (set_sess-Sound r m rl e ttl now before (Operations-Sound now before o))
    Operations-Sound now st (update {st = before} o e) =
        set_sess-Sound r m rl e _ now before (Operations-Sound now before o)
    Operations-Sound now st (consume {st = before} o s) =
        consume_keeps r m ttl now (Sound r m rl now) (set_nx-Sound now)
          (λ e ex st' c h. set_sess-Sound r m rl e ex now st' h) s before
          (Operations-Sound now before o)

    pub Closes-Spent :
        (s : String) (now : ℕ) (st st' : r.State)
        → Closes r m rl now st st'
        → Spent s now st
        → Spent s now st'
    Closes-Spent s now st st' c h t le b e = elim ((c t le).1 (r.decode b)) [
      | inr closed ↦ closed
      | inl same ↦ subst (Closed r m rl) (sym same) (h t le b (sym ((c t le).0 s) ∙ e))
    ]

    add_other-Closes :
        (s : String) (now : ℕ) (st : r.State) (e : OidcAuthentication)
        → e.state ≢ s
        → ((b : r.Bytes) → r.get (state s) now st ≡ some b → r.decode b ≢ e.id)
        → Spent s now st
        → Spent s now (add_session r m ttl e now st)
    unfolding add_session
    add_other-Closes s now st e other free h t le b found =
        let st₁ = r.set (sess e.id) (m.dump e) ttl now st in
        let unmoved =
          rl.get-set_ne (state e.state) (state s) (r.encode e.id) ttl now t st₁
            (state_ne e.state s other)
          ∙ rl.get-set_ne (sess e.id) (state s) (m.dump e) ttl now t st (sess-state e.id s) in
        let found' = sym unmoved ∙ found in
        let sid = r.decode b in
        let kept = λ (ne : e.id ≢ sid).
          rl.get-set_ne (state e.state) (sess sid) (r.encode e.id) ttl now t st₁
            (state-sess e.state sid)
          ∙ rl.get-set_ne (sess e.id) (sess sid) (m.dump e) ttl now t st (sess_ne e.id sid ne) in
        elim (rl.get_later (state s) now t st le) [
          | inr gone ↦ absurd (ground arith)
          | inl same ↦
              subst (Closed r m rl) (sym (kept (λ q. free b (sym same ∙ found') (sym q))))
                (h t le b found')
        ]

    pub Later-Spent :
        (s : String) (now₀ : ℕ) (st₀ : r.State)
        → Spent s now₀ st₀
        → (now : ℕ) (st : r.State) → Later s now₀ st₀ now st
        → Spent s now st
    unfolding update_session
    Later-Spent s now₀ st₀ h now st at_once = h
    Later-Spent s now₀ st₀ h now st (then_wait {now = before} l t₀ later) =
        λ t le sid e. Later-Spent s now₀ st₀ h before st l t (omega arith) sid e
    Later-Spent s now₀ st₀ h now st (then_add {st = before} l e other free) =
        add_other-Closes s now before e other free (Later-Spent s now₀ st₀ h now before l)
    Later-Spent s now₀ st₀ h now st (then_update {st = before} l e c) =
        Closes-Spent s now before _ (set_sess-Closes r m rl e _ now before c)
          (Later-Spent s now₀ st₀ h now before l)
    Later-Spent s now₀ st₀ h now st (then_consume {st = before} l s') =
        consume_keeps r m ttl now (Spent s now)
          (λ s'' v ex st' p. Closes-Spent s now st' _ (set_nx-Closes r m rl s'' v ex now st') p)
          (λ e ex st' c p. Closes-Spent s now st' _ (set_sess-Closes r m rl e ex now st' c) p) s'
          before (Later-Spent s now₀ st₀ h now before l)
