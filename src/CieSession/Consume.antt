-- ===== src/CieSession/Consume.antt =====
-- The paths of consume_session in satosa/plugins/redis_storage.py.
use pa_sso_proxy.Prelude.{
  ℕ, String, ◌≡◌, refl, inl, inr, Bool, true, false, Option, none, some, str_eq, if◌then◌else◌,
  arith, Bool-cases, Option-cases,
}
use pa_sso_proxy.Result.{Result, ok, err, Result-cases}
use pa_sso_proxy.CieSession.{
  sess, state, used, Redis, OidcAuthentication, Invalid, Model, non_empty, already_used, remaining,
  update_session, consume_entity, consume_doc, consume_marked, consume_sid, consume_session,
}

-- A predicate that the writes of a consumption keep.
module _ (r : Redis) (m : Model r) (ttl now : ℕ) (P : r.State → Type 0)
    (nx : (s : String) (v : r.Bytes) (ex : ℕ) (st : r.State)
      → P st
      → P (r.set_nx (used s) v ex now st).1)
    (put : (e : OidcAuthentication) (ex : ℕ) (st : r.State)
      → e.completed ≡ true
      → P st
      → P (r.set (sess e.id) (m.dump e) ex now st)) where
  branch : {A : Type 0} (b : Bool) (p q : A × r.State) → P p.1 → P q.1 → P (if b then p else q).1
  branch true p q hp hq = hp
  branch false p q hp hq = hq

  entity_keeps :
      (st : r.State) (res : Result Invalid OidcAuthentication)
      → P st
      → P (consume_entity r m ttl now st res).1
  unfolding consume_entity update_session
  entity_keeps st (err x) h = h
  entity_keeps st (ok e) h =
      branch (already_used e) (ok none, st)
        (_, update_session r m ttl (record e { completed = true }) now st) h
        (put (record e { completed = true }) _ st refl h)

  marked_keeps :
      (sid : String) (p : Bool × r.State) → P p.1 → P (consume_marked r m ttl sid now p).1
  unfolding consume_marked consume_doc
  marked_keeps sid (false, st) h = h
  marked_keeps sid (true, st) h = doc_keeps (non_empty r m (r.get (sess sid) now st))
    where
      doc_keeps : (o : Option r.Bytes) → P (consume_doc r m ttl now st o).1
      doc_keeps none = h
      doc_keeps (some doc) = entity_keeps st (m.validate doc) h

  sid_keeps :
      (s : String) (st : r.State) (o : Option r.Bytes) → P st → P (consume_sid r m ttl s now st o).1
  unfolding consume_sid
  sid_keeps s st none h = h
  sid_keeps s st (some b) h = marked_keeps (r.decode b) _ (nx s (r.encode "1") _ st h)

  pub consume_keeps : (s : String) (st : r.State) → P st → P (consume_session r m ttl s now st).1
  unfolding consume_session
  consume_keeps s st h =
      branch (str_eq s "") (ok none, st)
        (consume_sid r m ttl s now st (non_empty r m (r.get (state s) now st))) h
        (sid_keeps s st (non_empty r m (r.get (state s) now st)) h)

pub non_empty-some :
    (r : Redis) (m : Model r) (o : Option r.Bytes) {v : r.Bytes}
    → non_empty r m o ≡ some v
    → o ≡ some v
unfolding non_empty
non_empty-some r m none e = ground arith
non_empty-some r m (some w) e = elim (Bool-cases (r.is_empty w)) [
  | inl t ↦ ground arith
  | inr f ↦ ground arith
]

-- How a consumption that returns a session came to it.
module _ (r : Redis) (m : Model r) (ttl now : ℕ) (st : r.State) (e : OidcAuthentication)
    (after : r.State) where
  pub record Success (s : String) : Type 0 where
    pub sid_bytes : r.Bytes
    pub doc : r.Bytes
    pub before : OidcAuthentication
    pub of_state : r.get (state s) now st ≡ some sid_bytes
    pub of_sess :
        r.get
          (sess (r.decode sid_bytes))
          now
          (r.set_nx
            (used s)
            (r.encode "1")
            (remaining r m ttl (sess (r.decode sid_bytes)) now st)
            now
            st).1
        ≡ some doc
    pub validated : m.validate doc ≡ ok before
    pub fresh : already_used before ≡ false
    pub result : e ≡ record before { completed = true }
    pub written :
        after
        ≡ update_session r m ttl e now
            (r.set_nx
              (used s)
              (r.encode "1")
              (remaining r m ttl (sess (r.decode sid_bytes)) now st)
              now
              st).1
    pub marked :
        (r.set_nx
          (used s)
          (r.encode "1")
          (remaining r m ttl (sess (r.decode sid_bytes)) now st)
          now
          st).0
        ≡ true

  pub consume-Success :
      (s : String) → consume_session r m ttl s now st ≡ (ok (some e), after) → Success s
  unfolding consume_session consume_sid consume_marked consume_doc consume_entity
  consume-Success s h = elim (Option-cases (non_empty r m (r.get (state s) now st))) [
    | inl e₀ ↦ absurd (ground arith)
    | inr (b, e₁) ↦
        let p =
          r.set_nx (used s) (r.encode "1") (remaining r m ttl (sess (r.decode b)) now st) now st in
        elim (Bool-cases p.0) [
          | inr e₂ ↦ absurd (ground arith)
          | inl e₂ ↦ elim (Option-cases (non_empty r m (r.get (sess (r.decode b)) now p.1))) [
            | inl e₃ ↦ absurd (ground arith)
            | inr (doc, e₃) ↦ elim (Result-cases (m.validate doc)) [
              | inr (x, e₄) ↦ absurd (ground arith)
              | inl (before, e₄) ↦ elim (Bool-cases (already_used before)) [
                | inl e₅ ↦ absurd (ground arith)
                | inr e₅ ↦ record {
                  sid_bytes = b;
                  doc = doc;
                  before = before;
                  of_state = non_empty-some r m (r.get (state s) now st) e₁;
                  of_sess = non_empty-some r m (r.get (sess (r.decode b)) now p.1) e₃;
                  validated = e₄;
                  fresh = e₅;
                  result = ground arith;
                  written = ground arith;
                  marked = e₂;
                }
              ]
            ]
          ]
        ]
  ]
