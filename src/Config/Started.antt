-- ===== src/Config/Started.antt =====
-- What a server makes of a configuration that is built: its pipeline, its transport, and its refusal of
-- token authentication on stdio (packages/fss-mcp/src/fss_mcp/config.py,
-- packages/fss-mcp/src/fss_mcp/middleware/pipeline.py, packages/fss-mcp/src/fss_mcp/server.py).
use fss_chassis.Base.{
  ℕ, true, Text, text, text_eq, text_beq_iff, ◌==◌, false, some, List, [], ◌∷◌, Result, returns,
  raises, ◌>>=◌, ◌≡◌, refl, ap, sym, ◌↔◌, subst, ◌∙◌, inl, inr, Bool-cases, arith, All,
}
use fss_chassis.Auth.{AuthServices, AuthProvider, ProviderConfig}
use fss_chassis.Auth.Providers.{create_auth_provider}
use fss_chassis.Config.{AuthConfig, Raw, ServerConfig}
use fss_chassis.Config.Build.{
  valid_auth_providers, valid_auth_modes, valid_transports, build_config,
}
use fss_chassis.Config.Built.{IsAuth, build_config-IsSound}
use fss_chassis.Config.Startup.{
  effective_mode, provider_config, Pipeline, init_pipeline, Transport, choose_transport,
  is_token_on_stdio, token_on_stdio, unless_token_on_stdio, init_server,
}
use fss_chassis.Fit.Verify.{member}

-- What holds of all names of a list holds of one that is found in it.
pub All-member :
    (P : Text → Type 0) (names : List Text) (name : Text)
    → All P names
    → member name names ≡ true
    → P name
All-member P [] name h found = cc found
All-member P (other ∷ names) name (p, h) found = elim (Bool-cases (other == name)) [
  | inl same ↦ subst P ((text_eq.same_iff other name).0 same) p
  | inr different ↦ All-member P names name h (ground (arith, different, found))
]

bind-returns :
    {E : Type 0} {A : Type 0} {B : Type 0} (m : Result E A) (a : A) (f : A → Result E B) (g : A → B)
    → m ≡ returns a
    → ((a : A) → f a ≡ returns (g a))
    → (b : B) × ((m >>= f) ≡ returns b)
bind-returns m a f g e h = (g a, ap (λ m. m >>= f) e ∙ h a)

mode-known :
    (mode : Text) → member mode valid_auth_modes ≡ true → member mode valid_auth_providers ≡ true
mode-known mode h = ground (arith, h)

effective_mode-known :
    (auth : AuthConfig) → IsAuth auth → member (effective_mode auth) valid_auth_providers ≡ true
unfolding effective_mode
effective_mode-known auth (provider, mode) = elim (Bool-cases (auth.mode == text "none")) [
  | inl same ↦ elim (Bool-cases auth.enabled) [
    | inl on ↦ rw same (rw on provider)
    | inr off ↦ rw same (rw off refl)
  ]
  | inr other ↦ rw other (mode-known auth.mode mode)
]

create_auth_provider-returns :
    (lib : AuthServices) (name token : Text) (config : ProviderConfig)
    → member name valid_auth_providers ≡ true
    → (p : AuthProvider) × (create_auth_provider lib name token config ≡ returns p)
unfolding create_auth_provider
create_auth_provider-returns lib name token config h =
    All-member (λ n. (p : AuthProvider) × (create_auth_provider lib n token config ≡ returns p))
      valid_auth_providers name ((_, refl), ((_, refl), ((_, refl), ((_, refl), tt)))) h

choose_transport-known :
    (name : Text)
    → member name valid_transports ≡ true
    → (t : Transport) × (choose_transport name ≡ some t)
unfolding choose_transport
choose_transport-known name h =
    All-member (λ n. (t : Transport) × (choose_transport n ≡ some t)) valid_transports name
      ((_, refl), ((_, refl), tt)) h

-- From every configuration that is built the pipeline can be made, with no error for an unknown
-- provider, and a transport is found.
pub build_config-starts :
    (lib : AuthServices) (now : ℕ) (raw : Raw) (c : ServerConfig)
    → build_config raw ≡ returns c
    → ((p : Pipeline) × (init_pipeline lib now c.security ≡ returns p))
      × ((t : Transport) × (choose_transport c.server.transport ≡ some t))
unfolding init_pipeline
build_config-starts lib now raw c h =
    let (rates, sizes, validation, level, auth, profile, transport, log_level) =
      build_config-IsSound raw c h in
    let (provider, e) =
      create_auth_provider-returns lib (effective_mode c.security.auth) c.security.auth.token
        (provider_config c.security.auth) (effective_mode-known c.security.auth auth) in
    (bind-returns _ provider _ _ e (λ p. refl), choose_transport-known c.server.transport transport)

is_token_on_stdio_iff :
    (c : ServerConfig)
    → (is_token_on_stdio c ≡ true) ↔ (
        (c.security.auth.enabled ≡ true)
        × (c.security.auth.provider ≡ text "token")
        × (c.server.transport ≡ text "stdio"))
unfolding is_token_on_stdio
is_token_on_stdio_iff c =
    let provider = text_beq_iff c.security.auth.provider (text "token") in
    let transport = text_beq_iff c.server.transport (text "stdio") in
    (
      λ h. (ground (arith, h), provider.0 (ground (arith, h)), transport.0 (ground (arith, h))),
      λ h. rw h.0 (rw (provider.1 h.1) (transport.1 h.2)),
    )

refused_iff :
    (c : ServerConfig) (p : Pipeline)
    → (unless_token_on_stdio c (returns p) ≡ raises token_on_stdio) ↔ (is_token_on_stdio c ≡ true)
refused_iff c p = elim (Bool-cases (is_token_on_stdio c)) [
  | inl token ↦ rw token (λ h. refl, λ h. refl)
  | inr other ↦ rw other (λ h. cc h, λ h. cc h)
]

started_iff :
    (c : ServerConfig) (p : Pipeline)
    → ((q : Pipeline) × (unless_token_on_stdio c (returns p) ≡ returns q))
      ↔ (is_token_on_stdio c ≡ false)
started_iff c p = elim (Bool-cases (is_token_on_stdio c)) [
  | inl token ↦ rw token (λ h. cc (h.1), λ h. cc h)
  | inr other ↦ rw other (λ h. refl, λ h. (p, refl))
]

-- The start of a server with a configuration that is built comes past the making of the pipeline and
-- the check of the transport exactly unless token authentication is enabled on stdio, and that is
-- exactly when it is refused for this reason.
pub init_server-refuses :
    (lib : AuthServices) (now : ℕ) (raw : Raw) (c : ServerConfig)
    → build_config raw ≡ returns c
    → ((init_server lib now c ≡ raises token_on_stdio) ↔ (
        (c.security.auth.enabled ≡ true)
        × (c.security.auth.provider ≡ text "token")
        × (c.server.transport ≡ text "stdio")))
      × (((p : Pipeline) × (init_server lib now c ≡ returns p))
          ↔ ¬ (
              (c.security.auth.enabled ≡ true)
              × (c.security.auth.provider ≡ text "token")
              × (c.server.transport ≡ text "stdio")))
unfolding init_server
init_server-refuses lib now raw c h =
    let (p, e) = (build_config-starts lib now raw c h).0 in
    let test = is_token_on_stdio_iff c in
    let (refuses, starts) =
      subst
        (λ r.
          ((unless_token_on_stdio c r ≡ raises token_on_stdio) ↔ (is_token_on_stdio c ≡ true))
          × (((q : Pipeline) × (unless_token_on_stdio c r ≡ returns q))
              ↔ (is_token_on_stdio c ≡ false)))
        (sym e) (refused_iff c p, started_iff c p) in
    (
      (λ k. test.0 (refuses.0 k), λ k. refuses.1 (test.1 k)),
      (
        λ k l. cc (starts.0 k, test.1 l),
        λ k. starts.1 (elim (Bool-cases (is_token_on_stdio c)) [
          | inl token ↦ absurd (k (test.0 token))
          | inr other ↦ other
        ]),
      ),
    )
