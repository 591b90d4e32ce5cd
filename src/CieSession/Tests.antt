-- ===== src/CieSession/Tests.antt =====
-- A Redis that is a list of its writes, and a session of satosa/plugins/redis_storage.py in it.
use pa_sso_proxy.Prelude.{
  ℕ, ◌+◌, ◌-◌, ◌≤◌, String, ◌≡◌, ◌≢◌, refl, ap, ◌⊎◌, inl, Bool, true, false, Option, none, some,
  List, [], ◌∷◌, ltb, str_eq, eq_iff, eq_refl, find, if◌then◌else◌, arith,
}
use pa_sso_proxy.Result.{Result, ok, err}
use pa_sso_proxy.CieSession.{
  Key, sess, state, used, Redis, RedisLaws, OidcAuthentication, Invalid, validation_error, Model,
  ModelLaws, already_used, add_session, consume_session, get_sessions, ttl_seconds, has_text,
  has_items,
}
use pa_sso_proxy.CieSession.Once.{begin, add, at_once, then_wait}
use pa_sso_proxy.CieSession.Spent.{consume_once}
use pa_sso_proxy.CieSession.Added.{get_sessions-add, consume-add}

pub data Raw : Type 0 where
  text : String → Raw
  json : OidcAuthentication → Raw

pub record Write : Type 0 where
  key : Key
  value : Raw
  until : ℕ

abbrev key_eq : Key → Key → Bool
key_eq (sess a) (sess b) = str_eq a b
key_eq (state a) (state b) = str_eq a b
key_eq (used a) (used b) = str_eq a b
key_eq a b = false

key_eq_refl : (k : Key) → key_eq k k ≡ true
key_eq_refl (sess a) = eq_refl a
key_eq_refl (state a) = eq_refl a
key_eq_refl (used a) = eq_refl a

key_eq_ne : (k k' : Key) → k ≢ k' → key_eq k k' ≡ false
key_eq_ne (sess a) (sess b) ne = ground (arith, eq_iff a b)
key_eq_ne (state a) (state b) ne = ground (arith, eq_iff a b)
key_eq_ne (used a) (used b) ne = ground (arith, eq_iff a b)
key_eq_ne (sess a) (state b) ne = refl
key_eq_ne (sess a) (used b) ne = refl
key_eq_ne (state a) (sess b) ne = refl
key_eq_ne (state a) (used b) ne = refl
key_eq_ne (used a) (sess b) ne = refl
key_eq_ne (used a) (state b) ne = refl

abbrev value_at : ℕ → Option Write → Option Raw
value_at t none = none
value_at t (some w) = if ltb t w.until then some w.value else none

abbrev get_write : Key → ℕ → List Write → Option Raw
get_write k t st = value_at t (find (λ w. key_eq w.key k) st)

abbrev set_write : Key → Raw → ℕ → ℕ → List Write → List Write
set_write k v ex now st = record { key = k; value = v; until = now + ex } ∷ st

abbrev set_absent : Option Raw → Key → Raw → ℕ → ℕ → List Write → Bool × List Write
set_absent none k v ex now st = (true, set_write k v ex now st)
set_absent (some w) k v ex now st = (false, st)

abbrev time_left : ℕ → Option Write → ℕ
time_left now none = 0
time_left now (some w) = w.until - now

abbrev decode_raw : Raw → String
decode_raw (text s) = s
decode_raw (json e) = ""

abbrev is_empty_raw : Raw → Bool
is_empty_raw (text s) = str_eq s ""
is_empty_raw (json e) = false

abbrev pub writes : Redis
writes = record {
  State = List Write;
  Bytes = Raw;
  encode = text;
  decode = decode_raw;
  is_empty = is_empty_raw;
  get = get_write;
  set = set_write;
  set_nx = λ k v ex now st. set_absent (get_write k now st) k v ex now st;
  ttl = λ k now st. time_left now (find (λ w. key_eq w.key k) st);
}

value_later :
    (t t' : ℕ) (o : Option Write) → t ≤ t' → (value_at t' o ≡ value_at t o) ⊎ (value_at t' o ≡ none)
value_later t t' none le = inl refl
value_later t t' (some w) le = ground arith

pub writes-RedisLaws : RedisLaws writes
writes-RedisLaws = record {
  decode-encode = λ s. refl;
  is_empty-encode = λ s. refl;
  get-set = λ k v ex now t st le. rw (key_eq_refl k) refl;
  get-set_ne = λ k k' v ex now t st ne. rw (key_eq_ne k k' ne) refl;
  get_later = λ k t t' st le. value_later t t' (find (λ w. key_eq w.key k) st) le;
  set_nx-absent = λ k v ex now st e. rw e refl;
  set_nx-present = λ k v w ex now st e. rw e refl;
}

abbrev validate_raw : Raw → Result Invalid OidcAuthentication
validate_raw (text s) = err validation_error
validate_raw (json e) = ok e

abbrev pub objects : Model writes
objects = record { dump = json; validate = validate_raw }

pub objects-ModelLaws : ModelLaws writes objects
objects-ModelLaws = record { validate-dump = λ e. refl; dump_text = λ e. refl }

abbrev pub login : OidcAuthentication
login = record {
  id = "id";
  client_id = "rp";
  state = "state";
  endpoint = "op/authorize";
  authz_data = some "{}";
  provider_id = "https://op/";
  provider_configuration = ("openid_provider", "{}") ∷ [];
  user = none;
  access_token = none;
  code = none;
  id_token = none;
  refresh_token = none;
  scope = none;
  token_type = none;
  expires_in = none;
  revoked = false;
  completed = false;
}

abbrev pub started : List Write
started = add_session writes objects ttl_seconds login 100 []

pub differs : (a b : String) → str_eq a b ≡ false → a ≢ b
differs a b h e = ground (arith, eq_iff a b)

login_unused : already_used login ≡ false
unfolding already_used has_text has_items
login_unused = refl

get_sessions-add_example : get_sessions writes objects "state" 200 started ≡ ok (login ∷ [])
get_sessions-add_example =
    get_sessions-add writes objects ttl_seconds writes-RedisLaws objects-ModelLaws login 100 200 []
      (omega arith) (omega arith) (differs "id" "" refl)

abbrev spent_store : List Write
spent_store = (consume_session writes objects ttl_seconds "state" 100 started).1

first_consumption :
    consume_session writes objects ttl_seconds "state" 100 started
    ≡ (ok (some (record login { completed = true })), spent_store)
first_consumption =
    ap (λ q. (q, spent_store))
      (consume-add writes objects ttl_seconds writes-RedisLaws objects-ModelLaws login 100 100 []
        (omega arith) (omega arith) (differs "id" "" refl) (differs "state" "" refl) login_unused
        refl)

consume_once_example :
    (consume_session writes objects ttl_seconds "state" 300 spent_store).0 ≡ ok none
consume_once_example =
    consume_once writes objects ttl_seconds writes-RedisLaws objects-ModelLaws "state" 100 started
      spent_store (record login { completed = true }) (add (begin 100 [] (λ t k. refl)) login)
      first_consumption 300 spent_store (then_wait at_once 300 (omega arith))
