-- ===== src/Certs/Active.antt =====
-- The active certificate among the rows, and the files that SATOSA has of a certificate:
-- config-api/app/routes/certs.py with spid_cert_writer.py.
use pa_sso_proxy.Prelude.{
  ℕ, ◌≡◌, refl, sym, ap, ◌∙◌, ◌⊎◌, inl, inr, option_map, find, filter, count, Bool, true, false,
  not, Option, some, List, [], ◌∷◌, ◌++◌, map, ◌<◌, arith, All, All-mono, Increasing, find_key,
  find_unique, count_unique, Increasing-filter, Increasing-append, Increasing-map, find-filter,
  count-filter, find_first-append, count-append, All-map, subst,
}
use pa_sso_proxy.Metadata.{SpidCert, active}
use pa_sso_proxy.Certs.{has_cert_id, activate_only, deactivate, KeyFiles}

abbrev pub id_of : SpidCert → ℕ
id_of c = c.id

abbrev pub is_active : SpidCert → Bool
is_active c = c.is_active

abbrev pub files_of : SpidCert → KeyFiles
files_of c = record { spid_sp_cert = c.certificate_pem; spid_sp_key = c.private_key_pem }

-- `a` and no other certificate is active, and the files are its.
abbrev pub InUse : SpidCert → List SpidCert → Option KeyFiles → Type 0
InUse a certs files =
    (active certs ≡ some a) × (count is_active certs ≡ 1) × (files ≡ some (files_of a))

abbrev pub Kept : List SpidCert → Option KeyFiles → Type 0
Kept certs files = Increasing id_of certs × ((certs ≡ []) ⊎ ((a : SpidCert) × InUse a certs files))

find-activate_only :
    (k : ℕ) (certs : List SpidCert)
    → find is_active (map (activate_only k) certs)
      ≡ option_map (activate_only k) (find (has_cert_id k) certs)
unfolding activate_only has_cert_id
find-activate_only k [] = refl
find-activate_only k (c ∷ certs) = ground (arith, find-activate_only k certs)

count-activate_only :
    (k : ℕ) (certs : List SpidCert)
    → count is_active (map (activate_only k) certs) ≡ count (has_cert_id k) certs
unfolding activate_only has_cert_id
count-activate_only k [] = refl
count-activate_only k (c ∷ certs) = omega (arith, count-activate_only k certs)

count-deactivate : (certs : List SpidCert) → count is_active (map deactivate certs) ≡ 0
unfolding deactivate
count-deactivate [] = refl
count-deactivate (c ∷ certs) = omega (arith, count-deactivate certs)

pub after_activate-Kept :
    (certs : List SpidCert) (k : ℕ) (cert : SpidCert)
    → Increasing id_of certs
    → find (has_cert_id k) certs ≡ some cert
    → Kept (map (activate_only cert.id) certs) (some (files_of cert))
unfolding has_cert_id activate_only active
after_activate-Kept certs k cert o f =
    let self =
      subst (λ j. find (has_cert_id j) certs ≡ some cert) (sym (find_key id_of certs k f)) f in
    (
      Increasing-map id_of (activate_only cert.id) (λ c. refl) certs o,
      inr (
        activate_only cert.id cert,
        (
          rw (find-activate_only cert.id certs) (ap (option_map (activate_only cert.id)) self),
          count-activate_only cert.id certs ∙ count_unique id_of certs cert.id o self,
          refl,
        ),
      ),
    )

pub after_delete-Kept :
    (certs : List SpidCert) (files : Option KeyFiles) (k : ℕ) (cert : SpidCert)
    → Kept certs files
    → find (has_cert_id k) certs ≡ some cert
    → cert.is_active ≡ false
    → Kept (filter (λ c. not (has_cert_id cert.id c)) certs) files
unfolding has_cert_id active
after_delete-Kept certs files k cert (o, inl empty) f inactive = absurd (ground arith)
after_delete-Kept certs files k cert (o, inr (a, (found, one, same))) f inactive =
    let hidden =
      All-mono {Q = λ c. c.id ≡ cert.id → c.is_active ≡ false}
        (λ c unique i. ground (arith, unique, find_key id_of certs k f)) certs
        (find_unique id_of certs k o f) in
    (
      Increasing-filter id_of _ certs o,
      inr (
        a,
        (
          find-filter id_of is_active cert.id certs hidden ∙ found,
          count-filter id_of is_active cert.id certs hidden ∙ one,
          same,
        ),
      ),
    )

pub after_generate-Kept :
    (certs : List SpidCert) (new : SpidCert)
    → Increasing id_of certs
    → All (λ c. c.id < new.id) certs
    → new.is_active ≡ true
    → Kept (map deactivate certs ++ new ∷ []) (some (files_of new))
unfolding active deactivate
after_generate-Kept certs new o fresh on = (
  Increasing-append id_of (map deactivate certs) new
      (Increasing-map id_of deactivate (λ c. refl) certs o)
      (All-map (λ c. c.id < new.id) deactivate certs fresh),
  inr (
    new,
    (
      find_first-append is_active new (map deactivate certs) (count-deactivate certs) on,
      ground
          (arith, count-append is_active (map deactivate certs) (new ∷ []), count-deactivate certs),
      refl,
    ),
  ),
)
