-- ===== src/Integrity/Cai.antt =====
-- `compute_cai` and `validate_cai` (packages/fss-core/src/fss_core/integrity.py).
use fss_chassis.Base.{
  ℕ, zero, suc, Bool, true, false, ◌&&◌, ◌||◌, Text, text, text_eq, Option, none, some, [], ◌∷◌,
  ◌++◌, leb, nat_eq, if◌then◌else◌, Result, returns, raises,
}
use fss_chassis.Base.Dict.{Dict, lookup}
use fss_chassis.Integrity.{Bytes, Hashes}
use fss_chassis.Json.{Json}

-- _ALGO_MAP
abbrev pub algo_map : Dict Text Text
algo_map =
    (text "sha2-256", text "sha256")
    ∷ (text "sha2-384", text "sha384")
    ∷ (text "sha2-512", text "sha512")
    ∷ []

-- ValueError
pub data CaiError : Type 0 where
  unsupported_algorithm : Text → CaiError
  -- what the canonical form raises
  not_canonical : CaiError

abbrev pub cai_with : Hashes → Bytes → Text → Option Text → Result CaiError Text
cai_with lib bytes algorithm none = raises (unsupported_algorithm algorithm)
cai_with lib bytes algorithm (some name) = returns (algorithm ++ (b':' ∷ lib.hexdigest name bytes))

unfoldable pub compute_cai : Hashes → Bytes → Text → Result CaiError Text
compute_cai lib bytes algorithm = cai_with lib bytes algorithm (lookup algorithm algo_map)

abbrev pub json_cai_with : Hashes → Text → Option Bytes → Result CaiError Text
json_cai_with lib algorithm none = raises not_canonical
json_cai_with lib algorithm (some b) = compute_cai lib b algorithm

-- `canonical` is `jcs.canonicalize`, or the sorted `json.dumps` that stands in for it.
unfoldable pub compute_json_cai :
    Hashes → (Json → Option Bytes) → Json → Text → Result CaiError Text
compute_json_cai lib canonical v algorithm = json_cai_with lib algorithm (canonical v)

abbrev pub hex_lengths : Dict Text ℕ
hex_lengths = (text "sha2-256", 64) ∷ (text "sha2-384", 96) ∷ (text "sha2-512", 128) ∷ []

-- [0-9a-f]
unfoldable pub is_lower_hex : ℕ → Bool
is_lower_hex c = (leb b'0' c && leb c b'9') || (leb b'a' c && leb c b'f')

-- What follows a prefix, if it stands there
abbrev pub after_prefix : Text → Text → Option Text
after_prefix [] s = some s
after_prefix (c ∷ p) [] = none
after_prefix (c ∷ p) (d ∷ s) = if nat_eq c d then after_prefix p s else none

-- `$` matches at the end, and before a newline that is the last character.
abbrev pub at_end : Text → Bool
at_end [] = true
at_end (c ∷ []) = nat_eq c 10
at_end (c ∷ d ∷ s) = false

-- [0-9a-f]{n}$
abbrev pub matches_hex : ℕ → Text → Bool
matches_hex zero s = at_end s
matches_hex (suc n) [] = false
matches_hex (suc n) (c ∷ s) = is_lower_hex c && matches_hex n s

abbrev pub matches_digest : ℕ → Option Text → Bool
matches_digest n none = false
matches_digest n (some s) = matches_hex n s

unfoldable pub validate_cai : Text → Text → Bool
validate_cai value algorithm = elim (lookup algorithm hex_lengths) [
  | none ↦ false
  | some n ↦ matches_digest n (after_prefix (algorithm ++ (b':' ∷ [])) value)
]
