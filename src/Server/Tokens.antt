-- ===== src/Server/Tokens.antt =====
-- Resources and prompts under authentication (packages/fss-mcp/src/fss_mcp/server.py).
use fss_chassis.Base.{
  Text, text_eq, ◌==◌, Option, some, List, [], ◌≡◌, ◌≢◌, refl, ap, inl, inr, Bool-cases, ◌∙◌, ℕ,
}
use fss_chassis.Base.Dict.{lookup}
use fss_chassis.Auth.{
  AuthProvider, AuthServices, no_auth, token_auth, api_key, oauth, authentication_failed,
}
use fss_chassis.Auth.Providers.{
  authenticate_token, authenticate_key, authenticate_jwt, authenticate, admit, check_auth, run_auth,
}
use fss_chassis.Pipeline.{not_authenticated}
use fss_chassis.Pipeline.Steps.{
  auth_step, rate_limit_step, process_resource_request, go_on, if_refused,
}
use fss_chassis.Server.{Resource, Server, Environment, Moment, World}
use fss_chassis.Server.Calls.{
  blocked, mcp_error, without_token, by_resource, by_resource_answer, dispatch_resource,
}
use fss_chassis.Server.Meta.{pipeline_request, security_of}

-- No provider but the one that asks for nothing lets a request in that has no token.
run_auth-no_token :
    (lib : AuthServices) (now : ℕ) (p : AuthProvider) (name : Text) (scopes : List Text)
    (client : Option Text)
    → p ≢ no_auth
    → (reason : Text) × ((run_auth lib now p [] name scopes client).0
        ≡ some (authentication_failed reason))
unfolding run_auth check_auth authenticate admit authenticate_token authenticate_key
    authenticate_jwt
run_auth-no_token lib now no_auth name scopes client h = absurd (h refl)
run_auth-no_token lib now (token_auth expected) name scopes client h =
    elim (Bool-cases (expected == [])) [ inl e ↦ rw e (_, refl) | inr e ↦ rw e (_, refl) ]
run_auth-no_token lib now (api_key p) name scopes client h = (_, refl)
run_auth-no_token lib now (oauth p) name scopes client h = (_, refl)

-- With any authentication configured, no resource can be read: the read of one that is registered
-- is refused as unauthenticated, whatever token the request had.
pub dispatch_resource-refused :
    (env : Environment) (server : Server) (now : Moment) (uri : Text) (w : World)
    (resource : Resource)
    → w.security.auth_provider ≢ no_auth
    → lookup uri server.resources ≡ some resource
    → (reason : Text) × ((dispatch_resource env server now uri w).0
        ≡ mcp_error (blocked (not_authenticated (authentication_failed reason))))
unfolding dispatch_resource process_resource_request auth_step without_token pipeline_request
dispatch_resource-refused env server now uri w resource asks found =
    let request = without_token env server now w in
    let s = security_of w in
    let result =
      run_auth env.libraries.auth now.monotonic_seconds s.auth_provider [] uri resource.auth_scopes
        s.client_identity in
    let (reason, e) =
      run_auth-no_token env.libraries.auth now.monotonic_seconds s.auth_provider uri
        resource.auth_scopes s.client_identity asks in
    let rest = record s { auth_provider = result.1; client_identity = result.2 } in
    (
      reason,
      ap (λ o. (by_resource env server now uri w o).0) found
          ∙ ap
              (λ x.
                (by_resource_answer env server now uri resource w (
                  go_on (λ _. rate_limit_step env.libraries server.config request uri)
                    (if_refused not_authenticated x, rest))).0)
              e,
    )
