-- ===== src/Auth/Keys.antt =====
-- Which tokens and keys are let in (packages/fss-core/src/fss_core/auth.py).
use fss_chassis.Base.{
  ℕ, ◌≤◌, Text, text, text_eq, text_beq_iff, ◌==◌, Option, none, some, List, [], ◌∷◌, length, ltb,
  returns, ◌≡◌, ◌≢◌, refl, ap, sym, ◌∙◌, ◌↔◌, inl, inr, arith, Bool-cases,
}
use fss_chassis.Base.Dict.{lookup}
use fss_chassis.Auth.{AuthIdentity, success, failure, AuthServices, ApiKeys, token_auth, api_key}
use fss_chassis.Auth.Providers.{
  wildcard, authenticate_token, ensure_keys, by_label, authenticate_key, authenticate, check_auth,
}
use fss_chassis.Auth.Scopes.{token-IsAnswer, key-IsAnswer, admit_iff}

failure≢success : (reason : Text) (i : AuthIdentity) → ¬ (failure reason ≡ success i)
failure≢success reason i h = cc (ap (λ r. r.authenticated) h)

success-injective : (i j : AuthIdentity) → success i ≡ success j → i ≡ j
success-injective i j h = cc (ap (λ r. r.identity) h)

token_iff :
    (expected token : Text) (i : AuthIdentity)
    → (authenticate_token expected token ≡ success i)
      ↔ ((expected ≢ []) × (token ≡ expected) × (i ≡ wildcard (text "token-user")))
unfolding authenticate_token
token_iff [] [] i = (λ h. absurd (failure≢success _ i h), λ h. absurd (h.0 refl))
token_iff [] (d ∷ t) i = (λ h. absurd (failure≢success _ i h), λ h. absurd (h.0 refl))
token_iff (c ∷ e) [] i = (λ h. absurd (failure≢success _ i h), λ h. cc (h.1))
token_iff (c ∷ e) (d ∷ t) i = elim (Bool-cases ((d ∷ t) == (c ∷ e))) [
  | inl same ↦ rw same (
    λ h. (λ k. cc k, (text_beq_iff _ _).0 same, sym (success-injective _ i h)),
    λ h. ap success (sym h.2),
  )
  | inr other ↦ rw other (
    λ h. absurd (failure≢success _ i h),
    λ h. absurd (ground (arith, other, (text_beq_iff (d ∷ t) (c ∷ e)).1 h.1)),
  )
]

module _ (lib : AuthServices) where
  -- A token provider lets in exactly the requests with its token, and none where it has no token.
  pub check_token_iff :
      (now : ℕ) (expected token name : Text) (scopes : List Text) (i : AuthIdentity)
      → ((check_auth lib now (token_auth expected) token name scopes).0 ≡ returns i)
        ↔ ((expected ≢ []) × (token ≡ expected) × (i ≡ wildcard (text "token-user")))
  unfolding check_auth authenticate
  check_token_iff now expected token name scopes i =
      let admitted =
        admit_iff lib (token_auth expected) name scopes _ i (token-IsAnswer expected token) in
      let authentic = token_iff expected token i in
      (λ h. authentic.0 (admitted.0 h), λ h. admitted.1 (authentic.1 h))

  -- The label that the hash of a key has in the store, once the store is loaded.
  abbrev pub label_of : ApiKeys → Text → Option Text
  label_of p token = lookup (lib.sha256_hex (lib.strip token)) (ensure_keys lib p).key_store

  label_iff :
      (o : Option Text) (i : AuthIdentity)
      → (by_label lib o ≡ success i) ↔ ((label : Text) × (o ≡ some label) × (i ≡ wildcard label))
  label_iff none i = (λ h. absurd (failure≢success _ i h), λ h. cc (h.1))
  label_iff (some label) i = (
    λ h. (label, refl, sym (success-injective _ i h)),
    λ h.
        let same : label ≡ h.0 = cc (h.1) in
        ap (λ l. success (wildcard l)) same ∙ ap success (sym h.2),
  )

  key_iff :
      (p : ApiKeys) (token : Text) (i : AuthIdentity)
      → ((authenticate_key lib p token).0 ≡ success i) ↔ (
          (token ≢ [])
          × (32 ≤ length (lib.strip token))
          × ((label : Text) × (label_of p token ≡ some label) × (i ≡ wildcard label)))
  unfolding authenticate_key
  key_iff p [] i = (λ h. absurd (failure≢success _ i h), λ h. absurd (h.0 refl))
  key_iff p (c ∷ s) i = elim (Bool-cases (ltb (length (lib.strip (c ∷ s))) 32)) [
    | inl short ↦
        rw short (λ h. absurd (failure≢success _ i h), λ h. absurd (ground (arith, short, h.1)))
    | inr long ↦ rw long (
      λ h. (λ k. cc k, ground (arith, long), (label_iff (label_of p (c ∷ s)) i).0 h),
      λ h. (label_iff (label_of p (c ∷ s)) i).1 h.2,
    )
  ]

  -- A key provider lets in exactly the keys of 32 characters or more, stripped, whose hash is in its
  -- store, each as the identity that the store has for the hash.
  pub check_key_iff :
      (now : ℕ) (p : ApiKeys) (token name : Text) (scopes : List Text) (i : AuthIdentity)
      → ((check_auth lib now (api_key p) token name scopes).0 ≡ returns i) ↔ (
          (token ≢ [])
          × (32 ≤ length (lib.strip token))
          × ((label : Text) × (label_of p token ≡ some label) × (i ≡ wildcard label)))
  unfolding check_auth authenticate
  check_key_iff now p token name scopes i =
      let admitted = admit_iff lib _ name scopes _ i (key-IsAnswer lib p token) in
      let authentic = key_iff p token i in
      (λ h. authentic.0 (admitted.0 h), λ h. admitted.1 (authentic.1 h))
