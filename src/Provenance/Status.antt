-- ===== src/Provenance/Status.antt =====
-- What a provenance record says, and that its signatures are of the record that is returned
-- (packages/fss-core/src/fss_core/provenance.py).
use fss_chassis.Base.{
  Bool, true, false, ◌&&◌, Text, text, text_eq, text_beq_iff, ◌==◌, Option, none, some,
  if◌then◌else◌, ◌≡◌, refl, ap, sym, subst, ◌∙◌, ◌↔◌, ◌⊎◌, inl, inr, Bool-cases, All, All-map,
  arith,
}
use fss_chassis.Base.Dict.{Dict, lookup, insert, unless-some, lookup-insert, lookup-insert_self}
use fss_chassis.Fit.Verify.{member}
use fss_chassis.Integrity.{Bytes}
use fss_chassis.Integrity.Keys.{lower}
use fss_chassis.Integrity.Signing.{
  integrity_fields, context_fields, or_null, sign_provenance, sign_provenance_full,
}
use fss_chassis.Integrity.Signed.{sign_provenance-local}
use fss_chassis.Json.{Json, str}
use fss_chassis.Provenance.{Settings}
use fss_chassis.Provenance.Context.{Context}
use fss_chassis.Provenance.Build.{
  or_default, or_else, is_truthy, valid_invocation_types, valid_or, invocation_from,
  get_invocation_type, Call, evidentiary_status, result_status, unsigned_record, signature_json,
  signed_with, by_status, build_provenance_record,
}

-- Signing leaves every other field as it was.
pub lookup-signed_with :
    (env : Settings) (key : Option Bytes) (r : Dict Text Json) (k : Text)
    → (text "data_signature" == k) ≡ false
    → (text "provenance_signature" == k) ≡ false
    → lookup k (signed_with env key r) ≡ lookup k r
unfolding signed_with
lookup-signed_with env none r k h g = refl
lookup-signed_with env (some key) r k h g =
    let first = signature_json (sign_provenance env.hashes env.crypto r key) in
    let signed = insert (text "data_signature") first r in
    let second = signature_json (sign_provenance_full env.hashes env.crypto signed key) in
    lookup-insert (text "provenance_signature") k second signed
    ∙ ap (λ b. if b then some second else lookup k signed) g
    ∙ lookup-insert (text "data_signature") k first r
    ∙ ap (λ b. if b then some first else lookup k r) h

-- A record holds its own two signatures under a key.
abbrev pub IsSignedBy : Settings → Bytes → Dict Text Json → Type 0
IsSignedBy env key r =
    (lookup (text "data_signature") r
      ≡ some (signature_json (sign_provenance env.hashes env.crypto r key)))
    × (lookup (text "provenance_signature") r
        ≡ some (signature_json (sign_provenance_full env.hashes env.crypto r key)))

-- A new field that neither signature covers
unsigned_insert :
    (env : Settings) (key : Bytes) (k : Text) (v : Json) (r : Dict Text Json)
    → All (λ j. (k == j) ≡ false) integrity_fields
    → All (λ j. (k == j) ≡ false) context_fields
    → (sign_provenance env.hashes env.crypto r key
        ≡ sign_provenance env.hashes env.crypto (insert k v r) key)
      × (sign_provenance_full env.hashes env.crypto r key
          ≡ sign_provenance_full env.hashes env.crypto (insert k v r) key)
unsigned_insert env key k v r h g =
    let kept : (j : Text) → (k == j) ≡ false → lookup j r ≡ lookup j (insert k v r) =
      λ j e. sym (lookup-insert k j v r ∙ ap (λ b. if b then some v else lookup j r) e) in
    sign_provenance-local env.hashes env.crypto r (insert k v r) key
      (All-map kept integrity_fields h) (All-map (λ j e. ap or_null (kept j e)) context_fields g)

signed_with-IsSignedBy :
    (env : Settings) (key : Bytes) (r : Dict Text Json)
    → IsSignedBy env key (signed_with env (some key) r)
unfolding signed_with
signed_with-IsSignedBy env key r =
    let first = signature_json (sign_provenance env.hashes env.crypto r key) in
    let signed = insert (text "data_signature") first r in
    let second = signature_json (sign_provenance_full env.hashes env.crypto signed key) in
    let after_first =
      unsigned_insert env key (text "data_signature") first r (refl, (refl, (refl, (refl, tt))))
        (refl, (refl, (refl, (refl, (refl, (refl, (refl, (refl, (refl, tt))))))))) in
    let after_second =
      unsigned_insert env key (text "provenance_signature") second signed
        (refl, (refl, (refl, (refl, tt))))
        (refl, (refl, (refl, (refl, (refl, (refl, (refl, (refl, (refl, tt))))))))) in
    (
      lookup-insert (text "provenance_signature") (text "data_signature") second signed
          ∙ lookup-insert_self (text "data_signature") first r
          ∙ ap (λ s. some (signature_json s)) (after_first.0 ∙ after_second.0),
      lookup-insert_self (text "provenance_signature") second signed
          ∙ ap (λ s. some (signature_json s)) after_second.1,
    )

-- A record that is made of a success, where there is a key, holds two signatures, and these are the
-- signatures of the record that is returned: whoever holds it can check them.
pub build_provenance_record-IsSignedBy :
    (env : Settings) (key : Bytes) (ctx : Context) (call : Call) (r : Dict Text Json)
    → ctx.result_status ≡ some (text "success")
    → build_provenance_record env (some key) ctx call ≡ some r
    → IsSignedBy env key r
unfolding build_provenance_record
build_provenance_record-IsSignedBy env key ctx call r success h =
    let made = unsigned_record env ctx call in
    subst (IsSignedBy env key)
      (ap
          (λ o.
            by_status env (some key) made
              (or_default (text "error") (or_else o none) == text "success"))
          (sym success)
        ∙ unless-some _ _ r h)
      (signed_with-IsSignedBy env key made)

-- The variable that turns provenance off
abbrev pub IsOff : Settings → Type 0
IsOff env = lower (or_default (text "true") env.fss_provenance) ≡ text "false"

pub Off-cases : (env : Settings) → IsOff env ⊎ (¬ IsOff env)
Off-cases env =
    elim (Bool-cases (lower (or_default (text "true") env.fss_provenance) == text "false")) [
      | inl same ↦ inl ((text_beq_iff _ _).0 same)
      | inr different ↦ inr (λ off. cc (different, (text_beq_iff _ _).1 off))
    ]

-- A record is made exactly if FSS_PROVENANCE is not "false".
pub build_provenance_record-off :
    (env : Settings) (key : Option Bytes) (ctx : Context) (call : Call)
    → IsOff env
    → build_provenance_record env key ctx call ≡ none
unfolding build_provenance_record
build_provenance_record-off env key ctx call off = rw ((text_beq_iff _ _).1 off) refl

pub build_provenance_record-on :
    (env : Settings) (key : Option Bytes) (ctx : Context) (call : Call)
    → ¬ IsOff env
    → (r : Dict Text Json) × (build_provenance_record env key ctx call ≡ some r)
unfolding build_provenance_record
build_provenance_record-on env key ctx call on =
    elim (Bool-cases (lower (or_default (text "true") env.fss_provenance) == text "false")) [
      | inl same ↦ absurd (on ((text_beq_iff _ _).0 same))
      | inr different ↦ (
        by_status env key (unsigned_record env ctx call) (result_status ctx == text "success"),
        rw different refl,
      )
    ]

lookup-by_status :
    (env : Settings) (key : Option Bytes) (r : Dict Text Json) (success : Bool) (k : Text)
    → (text "data_signature" == k) ≡ false
    → (text "provenance_signature" == k) ≡ false
    → lookup k (by_status env key r success) ≡ lookup k r
lookup-by_status env key r false k h g = refl
lookup-by_status env key r true k h g = lookup-signed_with env key r k h g

-- Every other field of a record is that of the record before signing.
pub lookup-build_provenance_record :
    (env : Settings) (key : Option Bytes) (ctx : Context) (call : Call) (r : Dict Text Json)
    (k : Text)
    → build_provenance_record env key ctx call ≡ some r
    → (text "data_signature" == k) ≡ false
    → (text "provenance_signature" == k) ≡ false
    → lookup k r ≡ lookup k (unsigned_record env ctx call)
unfolding build_provenance_record
lookup-build_provenance_record env key ctx call r k h a b =
    ap (lookup k) (sym (unless-some _ _ r h))
    ∙ lookup-by_status env key (unsigned_record env ctx call) _ k a b

lookup-unsigned :
    (env : Settings) (ctx : Context) (call : Call)
    → lookup (text "evidentiary_status") (unsigned_record env ctx call)
      ≡ some (str (evidentiary_status env ctx))
unfolding unsigned_record
lookup-unsigned env ctx call = refl

says_evidentiary :
    (b : Bool)
    → ((if b then text "evidentiary" else text "non-evidentiary") ≡ text "evidentiary") ↔ (b ≡ true)
says_evidentiary true = (λ h. refl, λ h. refl)
says_evidentiary false = (λ h. cc h, λ h. cc h)

evidentiary_status_iff :
    (env : Settings) (ctx : Context)
    → (evidentiary_status env ctx ≡ text "evidentiary") ↔ (
        (lower (or_default (text "false") env.fss_metadata) ≡ text "true")
        × (is_truthy ctx.client_identity ≡ true))
unfolding evidentiary_status
evidentiary_status_iff env ctx =
    let on = lower (or_default (text "false") env.fss_metadata) in
    let known = is_truthy ctx.client_identity in
    let same = text_eq.same_iff on (text "true") in
    let both = says_evidentiary (on == text "true" && known) in
    (
      λ h. (same.0 (ground (arith, both.0 h)), ground (arith, both.0 h)),
      λ h. both.1 (ground (arith, same.1 h.0, h.1)),
    )

-- What a record says of its evidence, however it is signed: "evidentiary" exactly if FSS_METADATA
-- is "true" and the client is known by a name that is not empty.
pub evidentiary_iff :
    (env : Settings) (key : Option Bytes) (ctx : Context) (call : Call) (r : Dict Text Json)
    → build_provenance_record env key ctx call ≡ some r
    → (lookup (text "evidentiary_status") r ≡ some (str (text "evidentiary"))) ↔ (
        (lower (or_default (text "false") env.fss_metadata) ≡ text "true")
        × (is_truthy ctx.client_identity ≡ true))
evidentiary_iff env key ctx call r h =
    let found : lookup (text "evidentiary_status") r ≡ some (str (evidentiary_status env ctx)) =
      lookup-build_provenance_record env key ctx call r (text "evidentiary_status") h refl refl
      ∙ lookup-unsigned env ctx call in
    (
      λ k. (evidentiary_status_iff env ctx).0 (cc (sym found ∙ k)),
      λ k. found ∙ ap (λ t. some (str t)) ((evidentiary_status_iff env ctx).1 k),
    )

valid_or-valid :
    (d t : Text)
    → member d valid_invocation_types ≡ true
    → member (valid_or d t) valid_invocation_types ≡ true
valid_or-valid d t h = elim (Bool-cases (member t valid_invocation_types)) [
  | inl e ↦ rw e e
  | inr e ↦ rw e h
]

invocation_from-valid :
    (fallback : Text) (o : Option Text)
    → member fallback valid_invocation_types ≡ true
    → member (invocation_from fallback o) valid_invocation_types ≡ true
invocation_from-valid fallback none h = h
invocation_from-valid fallback (some t) h = valid_or-valid fallback t h

-- The type of invocation that a record holds is one of the three that exist, whatever the
-- environment and the context say.
pub get_invocation_type-valid :
    (env : Settings) (ctx : Context)
    → member (get_invocation_type env ctx) valid_invocation_types ≡ true
unfolding get_invocation_type
get_invocation_type-valid env ctx =
    let default = text "agent_supervised" in
    invocation_from-valid (valid_or default (or_default default env.mcp_invocation_type))
      ctx.invocation_type (valid_or-valid default (or_default default env.mcp_invocation_type) refl)
