-- ===== src/Auth/Scopes.antt =====
-- Whom the providers let in, and what the required scopes have to do with it
-- (packages/fss-core/src/fss_core/auth.py).
use fss_chassis.Base.{
  ℕ, Bool, true, false, Text, text, text_eq, ◌==◌, Option, none, some, List, [], ◌∷◌, length, ltb,
  if◌then◌else◌, Result, returns, raises, ◌≡◌, refl, ap, sym, subst, ◌∙◌, ◌↔◌, ◌⊎◌, inl, inr,
  Bool-cases,
}
use fss_chassis.Base.Dict.{lookup}
use fss_chassis.Auth.{
  AuthIdentity, AuthResult, success, failure, AuthServices, ApiKeys, OauthJwt, AuthProvider,
  no_auth, token_auth, api_key, oauth, authentication_failed, JwtPayload,
}
use fss_chassis.Auth.Providers.{
  wildcard, authenticate_token, ensure_keys, by_label, by_payload, by_jwks, authenticate_key,
  get_jwks, authenticate_jwt, authenticate, authorize, admit, check_auth,
}

-- Every provider gives an identity with the scope `*`, or fails.
abbrev pub IsAnswer : AuthResult → Type 0
IsAnswer r = ((id : Text) × (r ≡ success (wildcard id))) ⊎ ((reason : Text) × (r ≡ failure reason))

IsAnswer-if :
    (b : Bool) (x y : AuthResult) → IsAnswer x → IsAnswer y → IsAnswer (if b then x else y)
IsAnswer-if true x y h k = h
IsAnswer-if false x y h k = k

failed : (reason : Text) → IsAnswer (failure reason)
failed reason = inr (reason, refl)

pub token-IsAnswer : (expected token : Text) → IsAnswer (authenticate_token expected token)
unfolding authenticate_token
token-IsAnswer expected [] = IsAnswer-if (expected == []) _ _ (failed _) (failed _)
token-IsAnswer expected (c ∷ s) =
    IsAnswer-if (expected == []) _ _ (failed _)
      (IsAnswer-if ((c ∷ s) == expected) _ _ (inl (_, refl)) (failed _))

module _ (lib : AuthServices) where
  label-IsAnswer : (o : Option Text) → IsAnswer (by_label lib o)
  label-IsAnswer none = failed _
  label-IsAnswer (some label) = inl (label, refl)

  pub key-IsAnswer : (p : ApiKeys) (token : Text) → IsAnswer (authenticate_key lib p token).0
  unfolding authenticate_key
  key-IsAnswer p [] = failed _
  key-IsAnswer p (c ∷ s) = elim (Bool-cases (ltb (length (lib.strip (c ∷ s))) 32)) [
    | inl short ↦ rw short (failed _)
    | inr long ↦
        rw long (
          label-IsAnswer
            (lookup (lib.sha256_hex (lib.strip (c ∷ s))) (ensure_keys lib p).key_store))
  ]

  payload-IsAnswer : (m : Result Text JwtPayload) → IsAnswer (by_payload lib m)
  payload-IsAnswer (raises message) = failed _
  payload-IsAnswer (returns payload) = inl (_, refl)

  jwks-IsAnswer :
      (p : OauthJwt) (token : Text) (m : Result Text OauthJwt) → IsAnswer (by_jwks lib p token m).0
  jwks-IsAnswer p token (raises message) = failed _
  jwks-IsAnswer p token (returns q) = payload-IsAnswer _

  jwt-IsAnswer :
      (now : ℕ) (p : OauthJwt) (token : Text) → IsAnswer (authenticate_jwt lib now p token).0
  unfolding authenticate_jwt
  jwt-IsAnswer now p [] = failed _
  jwt-IsAnswer now p (c ∷ s) = jwks-IsAnswer p (c ∷ s) (get_jwks lib now p)

  authenticate-IsAnswer :
      (now : ℕ) (p : AuthProvider) (token : Text) → IsAnswer (authenticate lib now p token).0
  unfolding authenticate
  authenticate-IsAnswer now no_auth token = inl (text "local", refl)
  authenticate-IsAnswer now (token_auth expected) token = token-IsAnswer expected token
  authenticate-IsAnswer now (api_key p) token = key-IsAnswer p token
  authenticate-IsAnswer now (oauth p) token = jwt-IsAnswer now p token

  admit-success :
      (p : AuthProvider) (name id : Text) (scopes : List Text)
      → admit lib p name scopes (success (wildcard id)) ≡ returns (wildcard id)
  unfolding admit authorize
  admit-success no_auth name id scopes = refl
  admit-success (token_auth t) name id scopes = refl
  admit-success (api_key k) name id scopes = refl
  admit-success (oauth o) name id scopes = refl

  admit-failure :
      (p : AuthProvider) (name reason : Text) (scopes : List Text)
      → admit lib p name scopes (failure reason) ≡ raises (authentication_failed reason)
  unfolding admit
  admit-failure p name reason scopes = refl

  admit-same :
      (p : AuthProvider) (name name' : Text) (scopes scopes' : List Text) (r : AuthResult)
      → IsAnswer r
      → admit lib p name scopes r ≡ admit lib p name' scopes' r
  admit-same p name name' scopes scopes' r (inl (id, e)) =
      subst (λ t. admit lib p name scopes t ≡ admit lib p name' scopes' t) (sym e)
        (admit-success p name id scopes ∙ sym (admit-success p name' id scopes'))
  admit-same p name name' scopes scopes' r (inr (reason, e)) =
      subst (λ t. admit lib p name scopes t ≡ admit lib p name' scopes' t) (sym e)
        (admit-failure p name reason scopes ∙ sym (admit-failure p name' reason scopes'))

  pub admit_iff :
      (p : AuthProvider) (name : Text) (scopes : List Text) (r : AuthResult) (i : AuthIdentity)
      → IsAnswer r
      → (admit lib p name scopes r ≡ returns i) ↔ (r ≡ success i)
  admit_iff p name scopes r i (inl (id, e)) =
      let passed = ap (admit lib p name scopes) e ∙ admit-success p name id scopes in
      (λ h. e ∙ cc (passed, h), λ h. passed ∙ cc (e, h))
  admit_iff p name scopes r i (inr (reason, e)) = (
    λ h. cc (ap (admit lib p name scopes) e, admit-failure p name reason scopes, h),
    λ h. cc (e, h),
  )

  -- With the providers that come with the program, the scopes that a tool requires decide nothing:
  -- whoever authenticates is let in, with every identity, to every tool.
  pub check_auth-scopes :
      (now : ℕ) (p : AuthProvider) (token name name' : Text) (scopes scopes' : List Text)
      → check_auth lib now p token name scopes ≡ check_auth lib now p token name' scopes'
  unfolding check_auth
  check_auth-scopes now p token name name' scopes scopes' =
      let (result, p') = authenticate lib now p token in
      ap (λ r. (r, p'))
        (admit-same p' name name' scopes scopes' result (authenticate-IsAnswer now p token))
