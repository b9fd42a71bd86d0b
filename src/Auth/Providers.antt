-- ===== src/Auth/Providers.antt =====
-- The providers' operations, their factory and the checks that use them
-- (packages/fss-core/src/fss_core/auth.py, packages/fss-mcp/src/fss_mcp/middleware/pipeline.py).
use fss_chassis.Base.{
  ℕ, ◌-◌, Bool, true, false, not, ◌||◌, Text, text, text_eq, ◌==◌, Option, none, some, List, [],
  ◌∷◌, ◌++◌, length, any, all, ltb, if◌then◌else◌, Result, returns, raises,
}
use fss_chassis.Base.Dict.{Dict, lookup}
use fss_chassis.Auth.{
  AuthIdentity, AuthResult, success, failure, AuthServices, ApiKeys, OauthJwt, AuthProvider,
  no_auth, token_auth, api_key, oauth, ProviderConfig, JwtPayload, AuthError, authentication_failed,
  lacks_scopes, unknown_provider,
}

abbrev pub wildcard : Text → AuthIdentity
wildcard id = record { id = id; scopes = text "*" ∷ [] }

-- TokenAuthProvider.authenticate
unfoldable pub authenticate_token : Text → Text → AuthResult
authenticate_token expected [] =
    if expected == []
    then failure (text "Server misconfiguration: no token configured")
    else failure (text "Authentication required: no token provided")
authenticate_token expected (c ∷ provided) =
    if expected == []
    then failure (text "Server misconfiguration: no token configured")
    else if (c ∷ provided) == expected
    then success (wildcard (text "token-user"))
    else failure (text "Authentication failed: invalid token")

module _ (lib : AuthServices) where
  -- ApiKeyProvider._load_keys, where a file that cannot be read changes nothing
  unfoldable pub load_keys : ApiKeys → ApiKeys
  load_keys p = if p.keys_path == [] then p else elim (lib.read_keys p.keys_path) [
    | none ↦ p
    | some store ↦ record p { key_store = store }
  ]

  abbrev is_empty : Dict Text Text → Bool
  is_empty [] = true
  is_empty (k ∷ d) = false

  -- ApiKeyProvider.__init__
  unfoldable pub init_api_keys : Text → ℕ → ApiKeys
  init_api_keys path max_age =
      load_keys (record { keys_path = path; max_age_days = max_age; key_store = [] })

  abbrev pub ensure_keys : ApiKeys → ApiKeys
  ensure_keys p = if is_empty p.key_store then load_keys p else p

  abbrev pub by_label : Option Text → AuthResult
  by_label none = failure (text "Authentication failed: invalid API key")
  by_label (some label) = success (wildcard label)

  -- ApiKeyProvider.authenticate
  unfoldable pub authenticate_key : ApiKeys → Text → AuthResult × ApiKeys
  authenticate_key p [] = (failure (text "Authentication required: no Bearer token"), p)
  authenticate_key p (c ∷ s) =
      let raw_key = lib.strip (c ∷ s) in
      if ltb (length raw_key) 32
      then (failure (text "Authentication failed: key too short"), p)
      else (by_label (lookup (lib.sha256_hex raw_key) (ensure_keys p).key_store), ensure_keys p)

  -- The time to live is 3600 seconds; `now` is in seconds of the monotonic clock.
  abbrev is_fresh : ℕ → Option ℕ → Bool
  is_fresh now none = false
  is_fresh now (some at) = ltb (now - at) 3600

  -- OAuthJWTProvider._get_jwks
  unfoldable pub get_jwks : ℕ → OauthJwt → Result Text OauthJwt
  get_jwks now p =
      if is_fresh now p.cached_at then returns p else elim (lib.fetch_jwks p.jwks_url) [
        | returns kept ↦ returns (record p { cached_at = if kept then some now else none })
        | raises message ↦ raises message
      ]

  abbrev none_if_empty : Text → Option Text
  none_if_empty [] = none
  none_if_empty (c ∷ s) = some (c ∷ s)

  -- payload.get("sub") or payload.get("client_id", "unknown")
  abbrev subject : Text → Option Text → Text
  subject (c ∷ s) client_id = c ∷ s
  subject [] (some client_id) = client_id
  subject [] none = text "unknown"

  abbrev jwt_failure : Text → AuthResult
  jwt_failure message = failure (text "Authentication failed: " ++ message)

  abbrev pub by_payload : Result Text JwtPayload → AuthResult
  by_payload (raises message) = jwt_failure message
  by_payload (returns payload) = success (wildcard (subject payload.sub payload.client_id))

  -- The rest of the `try`: the provider stays as it was where the document is not there.
  abbrev pub by_jwks : OauthJwt → Text → Result Text OauthJwt → AuthResult × OauthJwt
  by_jwks p token (raises message) = (jwt_failure message, p)
  by_jwks p token (returns q) = (
    by_payload
        (lib.decode_jwt q.jwks_url (none_if_empty q.audience) (none_if_empty q.issuer) token),
    q,
  )

  -- OAuthJWTProvider.authenticate, where PyJWT is installed
  unfoldable pub authenticate_jwt : ℕ → OauthJwt → Text → AuthResult × OauthJwt
  authenticate_jwt now p [] = (failure (text "Authentication required: no Bearer token"), p)
  authenticate_jwt now p (c ∷ s) = by_jwks p (c ∷ s) (get_jwks now p)

  -- `authenticate` of the provider at hand; `token` is `request_context.get("token", "")`.
  unfoldable pub authenticate : ℕ → AuthProvider → Text → AuthResult × AuthProvider
  authenticate now no_auth token = (success (wildcard (text "local")), no_auth)
  authenticate now (token_auth expected) token =
      (authenticate_token expected token, token_auth expected)
  authenticate now (api_key p) token =
      let (result, q) = authenticate_key p token in (result, api_key q)
  authenticate now (oauth p) token =
      let (result, q) = authenticate_jwt now p token in (result, oauth q)

  unfoldable pub authorize : AuthProvider → AuthIdentity → List Text → Bool
  authorize no_auth identity scopes = true
  authorize provider identity scopes =
      any (λ s. s == text "*") identity.scopes
      || all (λ s. any (λ t. t == s) identity.scopes) scopes

  -- What follows `authenticate` in `check_auth` and in the `try` of `_run_auth`.
  unfoldable pub admit :
      AuthProvider → Text → List Text → AuthResult → Result AuthError AuthIdentity
  admit provider name scopes result =
      if not result.authenticated
      then raises (authentication_failed result.reason)
      else elim result.identity [
        | none ↦ raises (authentication_failed result.reason)
        | some identity ↦
            if authorize provider identity scopes
            then returns identity
            else raises (lacks_scopes name)
      ]

  unfoldable pub check_auth :
      ℕ → AuthProvider → Text → Text → List Text → Result AuthError AuthIdentity × AuthProvider
  check_auth now provider token name scopes =
      let (result, provider') = authenticate now provider token in
      (admit provider' name scopes result, provider')

  -- fss_client_identity, which the local identity leaves alone
  abbrev set_identity : AuthIdentity → Option Text → Option Text
  set_identity identity client = if identity.id == text "local" then client else some identity.id

  abbrev pub error_of : Result AuthError AuthIdentity → Option AuthError
  error_of (returns identity) = none
  error_of (raises error) = some error

  abbrev pub identity_after : Result AuthError AuthIdentity → Option Text → Option Text
  identity_after (returns identity) client = set_identity identity client
  identity_after (raises error) client = client

  -- `_run_auth`: the error if there is one, the provider and fss_client_identity after it.
  unfoldable pub run_auth :
      ℕ
      → AuthProvider
      → Text
      → Text
      → List Text
      → Option Text
      → Option AuthError × AuthProvider × Option Text
  run_auth now provider token name scopes client =
      let (result, provider') = check_auth now provider token name scopes in
      (error_of result, provider', identity_after result client)

  unfoldable pub create_auth_provider : Text → Text → ProviderConfig → Result AuthError AuthProvider
  create_auth_provider provider_type token config =
      if provider_type == text "none"
      then returns no_auth
      else if provider_type == text "token"
      then returns (token_auth token)
      else if provider_type == text "apikey"
      then returns (api_key (init_api_keys config.api_keys_path config.api_key_max_age_days))
      else if provider_type == text "oauth"
      then returns (
          oauth (record {
            jwks_url = config.oauth_jwks_url;
            audience = config.oauth_audience;
            issuer = config.oauth_issuer;
            cached_at = none;
          }))
      else raises (unknown_provider provider_type)
