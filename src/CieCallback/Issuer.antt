-- ===== src/CieCallback/Issuer.antt =====
-- __check_provider of satosa/plugins/cieoidc-endpoints/authorization_callback_endpoint.py.
use Prim.Native.Char.{code}
use Prim.Native.String.{[], ◌∷◌, ◌++◌}
use text.Mathlib.TextLemmas.{cons-append}
use text.Mathlib.TextEquality.{Char-path}
use pa_sso_proxy.Prelude.{
  String, ◌≡◌, ◌↔◌, refl, ap, sym, ◌∙◌, inl, inr, true, if◌then◌else◌, ==_iff, eq_iff, Bool-cases,
  arith,
}
use pa_sso_proxy.CieCallback.Texts.{ends_with_slash, without_last, check_provider}

-- A URL without the slash at its end, of which it may have one.
unfoldable pub without_slash : String → String
without_slash s = if ends_with_slash s then without_last s else s

slash_last : (s : String) → ends_with_slash s ≡ true → without_last s ++ "/" ≡ s
unfolding ends_with_slash without_last
slash_last [] h = absurd (ground arith)
slash_last (c ∷ []) h = ap (λ x. x ∷ "") (sym (Char-path c "/" ((==_iff (code c) (code "/")).0 h)))
slash_last (c ∷ d ∷ cs) h =
    cons-append c (without_last (d ∷ cs)) "/" ∙ ap (λ t. c ∷ t) (slash_last (d ∷ cs) h)

without_last-append : (s : String) → without_last (s ++ "/") ≡ s
unfolding without_last
without_last-append [] = refl
without_last-append (c ∷ []) = ap without_last (cons-append c "" "/")
without_last-append (c ∷ d ∷ cs) =
    ap without_last (cons-append c (d ∷ cs) "/" ∙ ap (λ t. c ∷ t) (cons-append d cs "/"))
    ∙ ap (λ t. c ∷ t) (sym (ap without_last (cons-append d cs "/")) ∙ without_last-append (d ∷ cs))

-- The provider and the issuer match exactly if they are the same URL up to one slash at the end.
pub check_provider_iff :
    (provider iss : String)
    → (check_provider provider iss ≡ true) ↔ (without_slash provider ≡ without_slash iss)
unfolding check_provider without_slash
check_provider_iff p i = elim (Bool-cases (ends_with_slash p)) [
  | inl a ↦ elim (Bool-cases (ends_with_slash i)) [
    | inl b ↦
        rw (a, b)
          (
            λ h. ap without_last ((eq_iff p i).0 h),
            λ h. (eq_iff p i).1 (sym (slash_last p a) ∙ (ap (λ t. t ++ "/") h ∙ slash_last i b)),
          )
    | inr b ↦
        rw (a, b)
          (
            λ h. ap without_last ((eq_iff p (i ++ "/")).0 h) ∙ without_last-append i,
            λ h. (eq_iff p (i ++ "/")).1 (sym (slash_last p a) ∙ ap (λ t. t ++ "/") h),
          )
  ]
  | inr a ↦ elim (Bool-cases (ends_with_slash i)) [
    | inl b ↦ rw (a, b) (eq_iff p (without_last i))
    | inr b ↦ rw (a, b) (eq_iff p i)
  ]
]
