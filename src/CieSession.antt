-- ===== src/CieSession.antt =====
-- The one-time sessions of the CIE login: satosa/plugins/redis_storage.py. Redis and the pydantic
-- model are parameters, with the laws that the storage relies on. Times are seconds.
pub mod Commands
pub mod Consume
pub mod Once
pub mod Added
pub mod Spent
pub mod Tests
use pa_sso_proxy.Prelude.{
  ℕ, ◌+◌, ◌≤◌, ◌<◌, String, ◌≡◌, ◌≢◌, ◌⊎◌, Bool, true, false, not, ◌&&◌, ◌||◌, Option, none, some,
  List, [], ◌∷◌, ltb, str_eq, if◌then◌else◌,
}
use pa_sso_proxy.Result.{Result, ok, err}

-- `cie:sess:<id>`, `cie:state:<state>` and `cie:used:<state>`
pub data Key : Type 0 where
  sess state used : String → Key

-- What the storage uses of Redis at a time, with the encoding of text as bytes: `ttl` is 0 where the command answers a negative number.
pub record Redis : Type 1 where
  pub State : Type 0
  pub Bytes : Type 0
  pub encode : String → Bytes
  pub decode : Bytes → String
  pub is_empty : Bytes → Bool
  pub get : Key → ℕ → State → Option Bytes
  pub set : Key → Bytes → ℕ → ℕ → State → State
  pub set_nx : Key → Bytes → ℕ → ℕ → State → Bool × State
  pub ttl : Key → ℕ → State → ℕ

-- Text is decoded to what was encoded, and only the empty text has no bytes. SET with EX holds its value until the time is over, and touches no other key; with NX it writes
-- where there is no value and only there; a value is gone once and for all.
pub record RedisLaws (r : Redis) : Type 0 where
  pub decode-encode : (s : String) → r.decode (r.encode s) ≡ s
  pub is_empty-encode : (s : String) → r.is_empty (r.encode s) ≡ str_eq s ""
  pub get-set :
      (k : Key) (v : r.Bytes) (ex now t : ℕ) (st : r.State)
      → now ≤ t
      → r.get k t (r.set k v ex now st) ≡ (if ltb t (now + ex) then some v else none)
  pub get-set_ne :
      (k k' : Key) (v : r.Bytes) (ex now t : ℕ) (st : r.State)
      → k ≢ k'
      → r.get k' t (r.set k v ex now st) ≡ r.get k' t st
  pub get_later :
      (k : Key) (t t' : ℕ) (st : r.State)
      → t ≤ t'
      → (r.get k t' st ≡ r.get k t st) ⊎ (r.get k t' st ≡ none)
  pub set_nx-absent :
      (k : Key) (v : r.Bytes) (ex now : ℕ) (st : r.State)
      → r.get k now st ≡ none
      → r.set_nx k v ex now st ≡ (true, r.set k v ex now st)
  pub set_nx-present :
      (k : Key) (v w : r.Bytes) (ex now : ℕ) (st : r.State)
      → r.get k now st ≡ some w
      → r.set_nx k v ex now st ≡ (false, st)

pub record OidcAuthentication : Type 0 where
  pub id : String
  pub client_id : String
  pub state : String
  pub endpoint : String
  pub authz_data : Option String
  pub provider_id : String
  -- the metadata by entity type, each as its JSON
  pub provider_configuration : List (String × String)
  pub user : Option (List (String × String))
  pub access_token : Option String
  pub code : Option String
  pub id_token : Option String
  pub refresh_token : Option String
  pub scope : Option String
  pub token_type : Option String
  pub expires_in : Option ℕ
  pub revoked : Bool
  pub completed : Bool

pub data Invalid : Type 0 where
  validation_error : Invalid

-- `model_dump_json` and `model_validate_json`
pub record Model (r : Redis) : Type 0 where
  pub dump : OidcAuthentication → r.Bytes
  pub validate : r.Bytes → Result Invalid OidcAuthentication

-- A dump is a JSON object, so it is not empty, and it validates to what was dumped.
pub record ModelLaws (r : Redis) (m : Model r) : Type 0 where
  pub validate-dump : (e : OidcAuthentication) → m.validate (m.dump e) ≡ ok e
  pub dump_text : (e : OidcAuthentication) → r.is_empty (m.dump e) ≡ false

unfoldable pub has_text : Option String → Bool
has_text none = false
has_text (some v) = not (str_eq v "")

unfoldable pub has_items {ℓ} : {A : Type ℓ} → Option (List A) → Bool
has_items none = false
has_items (some []) = false
has_items (some (x ∷ xs)) = true

unfoldable pub already_used : OidcAuthentication → Bool
unfolding has_text has_items
already_used e = e.completed || has_text e.code || has_text e.access_token || has_items e.user

abbrev pub ttl_seconds : ℕ
ttl_seconds = 7200

module _ (r : Redis) (m : Model r) where
  -- `if not sid` and `if not doc`: an empty value counts as none.
  unfoldable pub non_empty : Option r.Bytes → Option r.Bytes
  non_empty none = none
  non_empty (some v) = if r.is_empty v then none else some v

  -- The time that is left, or the default.
  unfoldable pub remaining : ℕ → Key → ℕ → r.State → ℕ
  remaining ttl k now st = if ltb 0 (r.ttl k now st) then r.ttl k now st else ttl

  unfoldable pub add_session : ℕ → OidcAuthentication → ℕ → r.State → r.State
  add_session ttl e now st =
      r.set (state e.state) (r.encode e.id) ttl now (r.set (sess e.id) (m.dump e) ttl now st)

  unfoldable pub update_session : ℕ → OidcAuthentication → ℕ → r.State → r.State
  update_session ttl e now st =
      r.set (sess e.id) (m.dump e) (remaining ttl (sess e.id) now st) now st

  unfoldable pub consume_entity :
      ℕ
      → ℕ
      → r.State
      → Result Invalid OidcAuthentication
      → Result Invalid (Option OidcAuthentication) × r.State
  consume_entity ttl now st (err e) = (err e, st)
  consume_entity ttl now st (ok e) =
      let e' = record e { completed = true } in
      if already_used e then (ok none, st) else (ok (some e'), update_session ttl e' now st)

  unfoldable pub consume_doc :
      ℕ → ℕ → r.State → Option r.Bytes → Result Invalid (Option OidcAuthentication) × r.State
  consume_doc ttl now st none = (ok none, st)
  consume_doc ttl now st (some doc) = consume_entity ttl now st (m.validate doc)

  unfoldable pub consume_marked :
      ℕ → String → ℕ → Bool × r.State → Result Invalid (Option OidcAuthentication) × r.State
  consume_marked ttl sid now (false, st) = (ok none, st)
  consume_marked ttl sid now (true, st) =
      consume_doc ttl now st (non_empty (r.get (sess sid) now st))

  unfoldable pub consume_sid :
      ℕ
      → String
      → ℕ
      → r.State
      → Option r.Bytes
      → Result Invalid (Option OidcAuthentication) × r.State
  consume_sid ttl s now st none = (ok none, st)
  consume_sid ttl s now st (some b) =
      let sid = r.decode b in
      consume_marked ttl sid now
        (r.set_nx (used s) (r.encode "1") (remaining ttl (sess sid) now st) now st)

  unfoldable pub consume_session :
      ℕ → String → ℕ → r.State → Result Invalid (Option OidcAuthentication) × r.State
  consume_session ttl s now st =
      if str_eq s ""
      then (ok none, st)
      else consume_sid ttl s now st (non_empty (r.get (state s) now st))

  unfoldable pub sessions_of_doc : Option r.Bytes → Result Invalid (List OidcAuthentication)
  sessions_of_doc none = ok []
  sessions_of_doc (some doc) = elim (m.validate doc) [ ok e ↦ ok (e ∷ []) | err x ↦ err x ]

  unfoldable pub get_sessions : String → ℕ → r.State → Result Invalid (List OidcAuthentication)
  get_sessions s now st = elim (non_empty (r.get (state s) now st)) [
    | none ↦ ok []
    | some b ↦ sessions_of_doc (non_empty (r.get (sess (r.decode b)) now st))
  ]
