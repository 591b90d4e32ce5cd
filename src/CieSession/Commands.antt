-- ===== src/CieSession/Commands.antt =====
-- What the commands of satosa/plugins/redis_storage.py leave in the store at any later time.
use pa_sso_proxy.Prelude.{
  ℕ, ◌+◌, ◌≤◌, String, ◌≡◌, ◌≢◌, refl, sym, ap, ◌∙◌, ◌⊎◌, inl, inr, true, Option, none, some, ltb,
  str_eq, eq_iff, arith, Option-cases, Bool-cases, subst,
}
use pa_sso_proxy.CieSession.{Key, sess, state, used, Redis, RedisLaws, OidcAuthentication, Model}

pub sess_ne : (i j : String) → i ≢ j → sess i ≢ sess j
sess_ne i j ne e = ground arith

pub state_ne : (i j : String) → i ≢ j → state i ≢ state j
state_ne i j ne e = ground arith

pub used-sess : (i j : String) → used i ≢ sess j
used-sess i j e = ground arith

pub used-state : (i j : String) → used i ≢ state j
used-state i j e = ground arith

pub sess-state : (i j : String) → sess i ≢ state j
sess-state i j e = ground arith

pub state-sess : (i j : String) → state i ≢ sess j
state-sess i j e = ground arith

pub state-used : (i j : String) → state i ≢ used j
state-used i j e = ground arith

pub sess-used : (i j : String) → sess i ≢ used j
sess-used i j e = ground arith

module _ (r : Redis) (m : Model r) (rl : RedisLaws r) where
  -- No session, or one that is marked as completed.
  abbrev pub Closed : Option r.Bytes → Type 0
  Closed o = (o ≡ none) ⊎ ((e : OidcAuthentication) × (o ≡ some (m.dump e)) × (e.completed ≡ true))

  -- From `now` on, every state's session id is the same and every session is the same or closed.
  abbrev pub Closes : ℕ → r.State → r.State → Type 0
  Closes now st st' =
      (t : ℕ)
      → now ≤ t
      → ((x : String) → r.get (state x) t st' ≡ r.get (state x) t st)
        × ((i : String)
            → (r.get (sess i) t st' ≡ r.get (sess i) t st) ⊎ Closed (r.get (sess i) t st'))

  -- Every session is the dump of one with its id.
  abbrev pub Sound : ℕ → r.State → Type 0
  Sound now st =
      (t : ℕ)
      → now ≤ t
      → (i : String)
      → (r.get (sess i) t st ≡ none)
        ⊎ ((e : OidcAuthentication) × (r.get (sess i) t st ≡ some (m.dump e)) × (e.id ≡ i))

  pub Closes-refl : (now : ℕ) (st : r.State) → Closes now st st
  Closes-refl now st t le = (λ x. refl, λ i. inl refl)

  pub Closes-trans :
      (now : ℕ) (st st' st'' : r.State)
      → Closes now st st'
      → Closes now st' st''
      → Closes now st st''
  Closes-trans now st st' st'' p q t le = (
    λ x. (q t le).0 x ∙ (p t le).0 x,
    λ i. elim ((q t le).1 i) [
      | inr c ↦ inr c
      | inl e ↦ elim ((p t le).1 i) [ inl f ↦ inl (e ∙ f) | inr c ↦ inr (subst Closed (sym e) c) ]
    ],
  )

  set_used-Closes :
      (s : String) (v : r.Bytes) (ex now : ℕ) (st : r.State)
      → Closes now st (r.set (used s) v ex now st)
  set_used-Closes s v ex now st t le = (
    λ x. rl.get-set_ne (used s) (state x) v ex now t st (used-state s x),
    λ i. inl (rl.get-set_ne (used s) (sess i) v ex now t st (used-sess s i)),
  )

  pub set_nx-Closes :
      (s : String) (v : r.Bytes) (ex now : ℕ) (st : r.State)
      → Closes now st (r.set_nx (used s) v ex now st).1
  set_nx-Closes s v ex now st = elim (Option-cases (r.get (used s) now st)) [
    | inl e ↦
        subst (Closes now st) (sym (ap (λ p. p.1) (rl.set_nx-absent (used s) v ex now st e)))
          (set_used-Closes s v ex now st)
    | inr (w, e) ↦
        subst (Closes now st) (sym (ap (λ p. p.1) (rl.set_nx-present (used s) v w ex now st e)))
          (Closes-refl now st)
  ]

  pub get-set_sess :
      (e : OidcAuthentication) (ex now t : ℕ) (st : r.State)
      → now ≤ t
      → (r.get (sess e.id) t (r.set (sess e.id) (m.dump e) ex now st) ≡ none)
        ⊎ (r.get (sess e.id) t (r.set (sess e.id) (m.dump e) ex now st) ≡ some (m.dump e))
  get-set_sess e ex now t st le =
      let law = rl.get-set (sess e.id) (m.dump e) ex now t st le in
      elim (Bool-cases (ltb t (now + ex))) [
        | inl alive ↦ inr (law ∙ rw alive refl)
        | inr gone ↦ inl (law ∙ rw gone refl)
      ]

  pub set_sess-Closes :
      (e : OidcAuthentication) (ex now : ℕ) (st : r.State)
      → e.completed ≡ true
      → Closes now st (r.set (sess e.id) (m.dump e) ex now st)
  set_sess-Closes e ex now st completed t le = (
    λ x. rl.get-set_ne (sess e.id) (state x) (m.dump e) ex now t st (sess-state e.id x),
    λ i. elim (Bool-cases (str_eq e.id i)) [
      | inl same ↦
          subst
            (λ j.
              (r.get (sess j) t (r.set (sess e.id) (m.dump e) ex now st) ≡ r.get (sess j) t st)
              ⊎ Closed (r.get (sess j) t (r.set (sess e.id) (m.dump e) ex now st)))
            ((eq_iff e.id i).0 same)
            (inr (elim (get-set_sess e ex now t st le) [
              | inl n ↦ inl n
              | inr s ↦ inr (e, s, completed)
            ]))
      | inr other ↦ inl (
          rl.get-set_ne (sess e.id) (sess i) (m.dump e) ex now t st
            (sess_ne e.id i (λ q. ground (arith, eq_iff e.id i))))
    ],
  )

  pub set_sess-Sound :
      (e : OidcAuthentication) (ex now : ℕ) (st : r.State)
      → Sound now st
      → Sound now (r.set (sess e.id) (m.dump e) ex now st)
  set_sess-Sound e ex now st sound t le i = elim (Bool-cases (str_eq e.id i)) [
    | inl same ↦
        let id = (eq_iff e.id i).0 same in
        subst
          (λ j.
            (r.get (sess j) t (r.set (sess e.id) (m.dump e) ex now st) ≡ none)
            ⊎ ((e' : OidcAuthentication) × (r.get (sess j) t
                    (r.set (sess e.id) (m.dump e) ex now st)
                  ≡ some (m.dump e'))
                × (e'.id ≡ j)))
          id (elim (get-set_sess e ex now t st le) [ inl n ↦ inl n | inr s ↦ inr (e, s, refl) ])
    | inr other ↦
        let same =
          rl.get-set_ne (sess e.id) (sess i) (m.dump e) ex now t st
            (sess_ne e.id i (λ q. ground (arith, eq_iff e.id i))) in
        rw same (sound t le i)
  ]

  -- A write to a key that is no session.
  pub set_other-Sound :
      (k : Key) (v : r.Bytes) (ex now : ℕ) (st : r.State)
      → ((i : String) → k ≢ sess i)
      → Sound now st
      → Sound now (r.set k v ex now st)
  set_other-Sound k v ex now st other sound t le i =
      rw (rl.get-set_ne k (sess i) v ex now t st (other i)) (sound t le i)
