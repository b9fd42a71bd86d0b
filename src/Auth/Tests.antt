-- ===== src/Auth/Tests.antt =====
-- Runs of the providers, and the theorems at a concrete server
-- (packages/fss-core/src/fss_core/auth.py).
use fss_chassis.Base.{
  ◌≤◌, Text, text, text_eq, [], ◌∷◌, none, some, length, returns, raises, ◌≡◌, ◌≢◌, ◌↔◌, refl,
}
use fss_chassis.Auth.{AuthServices, ApiKeys, no_auth, token_auth, api_key}
use fss_chassis.Auth.Providers.{
  wildcard, authenticate_key, load_keys, authenticate, authorize, admit, check_auth, run_auth,
}
use fss_chassis.Auth.Scopes.{check_auth-scopes}
use fss_chassis.Auth.Keys.{check_token_iff, check_key_iff, label_of}

-- A hash that is the text itself, and one key on file.
abbrev plain : AuthServices
plain = record {
  strip = λ s. s;
  sha256_hex = λ s. s;
  read_keys = λ path. some ((text "0123456789abcdef0123456789abcdef", text "lab") ∷ []);
  fetch_jwks = λ url. raises (text "no network");
  decode_jwt = λ url audience issuer token. raises (text "no key");
}

abbrev keys : ApiKeys
keys = record { keys_path = text "keys.json"; max_age_days = 90; key_store = [] }

key_admitted :
    run_auth plain 0 (api_key keys) (text "0123456789abcdef0123456789abcdef") (text "tool") [] none
    ≡ (
      none,
      api_key
          (record keys { key_store = (text "0123456789abcdef0123456789abcdef", text "lab") ∷ [] }),
      some (text "lab"),
    )
unfolding run_auth check_auth authenticate authenticate_key load_keys admit authorize
key_admitted = refl

local_leaves_identity :
    run_auth plain 0 no_auth [] (text "tool") (text "admin" ∷ []) (some (text "before"))
    ≡ (none, no_auth, some (text "before"))
unfolding run_auth check_auth authenticate admit authorize
local_leaves_identity = refl

check_auth-scopes_example :
    check_auth plain 0 (token_auth (text "s3")) (text "s3") (text "delete") (text "admin" ∷ [])
    ≡ check_auth plain 0 (token_auth (text "s3")) (text "s3") (text "read") []
check_auth-scopes_example =
    check_auth-scopes plain 0 (token_auth (text "s3")) (text "s3") (text "delete") (text "read")
      (text "admin" ∷ []) []

check_token_iff_example :
    ((check_auth plain 0 (token_auth (text "s3")) (text "s3") (text "read") []).0
      ≡ returns (wildcard (text "token-user")))
    ↔ ((text "s3" ≢ [])
        × (text "s3" ≡ text "s3")
        × (wildcard (text "token-user") ≡ wildcard (text "token-user")))
check_token_iff_example =
    check_token_iff plain 0 (text "s3") (text "s3") (text "read") [] (wildcard (text "token-user"))

check_key_iff_example :
    ((check_auth plain 0 (api_key keys) (text "short") (text "read") []).0
      ≡ returns (wildcard (text "lab")))
    ↔ ((text "short" ≢ [])
        × (32 ≤ length (text "short"))
        × ((label : Text) × (label_of plain keys (text "short") ≡ some label)
            × (wildcard (text "lab") ≡ wildcard label)))
check_key_iff_example =
    check_key_iff plain 0 keys (text "short") (text "read") [] (wildcard (text "lab"))
