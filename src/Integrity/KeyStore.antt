-- ===== src/Integrity/KeyStore.antt =====
-- Key ids, and what the key directory gives over time
-- (packages/fss-core/src/fss_core/integrity.py).
use fss_chassis.Base.{
  ℕ, ◌+◌, ◌-◌, ◌*◌, ◌/◌, ◌%◌, ◌<◌, Bool, true, false, Text, Option, none, some, [], ◌∷◌, leb,
  if◌then◌else◌, All, ◌≡◌, refl, ap, subst, ◌∙◌, sym, arith, nat_eq,
}
use fss_chassis.Integrity.{Bytes, Hashes, Crypto}
use fss_chassis.Integrity.Keys.{
  base64_char, base64url, compute_key_id, Write, refused, cut_off, not_chmoded, done, KeyDir,
  by_files, written, ensure_signing_key_pair,
}

-- The six bits that a character stands for.
unfoldable pub sextet : ℕ → ℕ
sextet c =
    if nat_eq c b'-'
    then 62
    else if nat_eq c b'_'
    then 63
    else if leb c b'9'
    then c - b'0' + 52
    else if leb c b'Z'
    then c - b'A'
    else c - b'a' + 26

-- Reading base64url without padding: two, three or four characters give one, two or three bytes.
unfoldable pub decode : Text → Bytes
decode (p ∷ q ∷ []) = (sextet p * 4 + sextet q / 16) ∷ []
decode (p ∷ q ∷ r ∷ []) = (sextet p * 4 + sextet q / 16) ∷ (sextet q % 16 * 16 + sextet r / 4) ∷ []
decode (p ∷ q ∷ r ∷ t ∷ s) =
    (sextet p * 4 + sextet q / 16)
    ∷ (sextet q % 16 * 16 + sextet r / 4)
    ∷ (sextet r % 4 * 64 + sextet t)
    ∷ decode s
decode _ = []

sextet-base64_char : (v : ℕ) → v < 64 → sextet (base64_char v) ≡ v
unfolding sextet base64_char
sextet-base64_char v h = ground arith

high_byte :
    (a rest : ℕ)
    → a < 256
    → rest < 16
    → sextet (base64_char (a / 4)) * 4 + sextet (base64_char (a % 4 * 16 + rest)) / 16 ≡ a
high_byte a rest h k = omega (
  arith,
  sextet-base64_char (a / 4) (omega arith),
  sextet-base64_char (a % 4 * 16 + rest) (omega arith),
)

middle_byte :
    (front b rest : ℕ)
    → front < 4
    → b < 256
    → rest < 4
    → sextet (base64_char (front * 16 + b / 16)) % 16 * 16
        + sextet (base64_char (b % 16 * 4 + rest)) / 4
      ≡ b
middle_byte front b rest f h k = omega (
  arith,
  sextet-base64_char (front * 16 + b / 16) (omega arith),
  sextet-base64_char (b % 16 * 4 + rest) (omega arith),
)

low_byte :
    (front c : ℕ)
    → front < 16
    → c < 256
    → sextet (base64_char (front * 4 + c / 64)) % 4 * 64 + sextet (base64_char (c % 64)) ≡ c
low_byte front c f h = omega (
  arith,
  sextet-base64_char (front * 4 + c / 64) (omega arith),
  sextet-base64_char (c % 64) (omega arith),
)

-- Decoding what was encoded gives the bytes back.
pub decode-base64url : (bytes : Bytes) → All (λ b. b < 256) bytes → decode (base64url bytes) ≡ bytes
unfolding decode base64url
decode-base64url [] h = refl
decode-base64url (a ∷ []) h =
    let padded : a % 4 * 16 ≡ a % 4 * 16 + 0 = omega arith in
    rw padded (ap (λ x. x ∷ []) (high_byte a 0 h.0 (omega arith)))
decode-base64url (a ∷ b ∷ []) (p, (q, h)) =
    let padded : b % 16 * 4 ≡ b % 16 * 4 + 0 = omega arith in
    let first = high_byte a (b / 16) p (omega arith) in
    let second = middle_byte (a % 4) b 0 (omega arith) q (omega arith) in
    rw padded (λ i. first i ∷ second i ∷ [])
decode-base64url (a ∷ b ∷ c ∷ s) (p, (q, (r, h))) =
    let first = high_byte a (b / 16) p (omega arith) in
    let second = middle_byte (a % 4) b (c / 64) (omega arith) q (omega arith) in
    let third = low_byte (b % 16) c (omega arith) r in
    let later = decode-base64url s h in λ i. first i ∷ second i ∷ third i ∷ later i

-- Keys with different digests of their public halves have different ids.
pub compute_key_id-injective :
    (hashes : Hashes) (crypto : Crypto) (k l : Bytes)
    → All (λ b. b < 256) (hashes.sha256_digest (crypto.public_raw k))
    → All (λ b. b < 256) (hashes.sha256_digest (crypto.public_raw l))
    → compute_key_id hashes crypto k ≡ compute_key_id hashes crypto l
    → hashes.sha256_digest (crypto.public_raw k) ≡ hashes.sha256_digest (crypto.public_raw l)
unfolding compute_key_id
compute_key_id-injective hashes crypto k l hk hl e =
    sym (decode-base64url _ hk) ∙ ap decode e ∙ decode-base64url _ hl

-- What is documented of PEM: a private key that was written loads as itself.
pub record LoadsBack (crypto : Crypto) : Type 0 where
  pub loads_back : (key : Bytes) → crypto.load_pem (crypto.private_pem key) ≡ some key

written_stays :
    (crypto : Crypto) (fresh later key : Bytes) (d e : KeyDir) (p q : Write)
    → LoadsBack crypto
    → written crypto fresh d p q ≡ (some key, e)
    → by_files crypto later e e.priv_pem e.pub_pem ≡ (some key, e)
written_stays crypto fresh later key d e refused q back h = cc (ap (λ r. r.0) h)
written_stays crypto fresh later key d e (cut_off n) q back h = cc (ap (λ r. r.0) h)
written_stays crypto fresh later key d e not_chmoded q back h = cc (ap (λ r. r.0) h)
written_stays crypto fresh later key d e done refused back h = cc (ap (λ r. r.0) h)
written_stays crypto fresh later key d e done (cut_off n) back h = cc (ap (λ r. r.0) h)
written_stays crypto fresh later key d e done not_chmoded back h = cc (ap (λ r. r.0) h)
written_stays crypto fresh later key d e done done back h =
    let made : fresh ≡ key = cc (ap (λ r. r.0) h) in
    let priv : e.priv_pem ≡ some (crypto.private_pem fresh) = ap (λ r. r.1.priv_pem) (sym h) in
    let public : e.pub_pem ≡ some (crypto.public_pem fresh) = ap (λ r. r.1.pub_pem) (sym h) in
    ap (λ o. by_files crypto later e o e.pub_pem) priv
    ∙ ap (by_files crypto later e (some (crypto.private_pem fresh))) public
    ∙ ap (λ o. (o, e)) (back.loads_back fresh ∙ ap some made)

stays :
    (crypto : Crypto) (fresh later key : Bytes) (d e : KeyDir) (p q : Option Bytes)
    → LoadsBack crypto
    → d.priv_pem ≡ p
    → d.pub_pem ≡ q
    → by_files crypto fresh d p q ≡ (some key, e)
    → by_files crypto later e e.priv_pem e.pub_pem ≡ (some key, e)
stays crypto fresh later key d e (some p) (some q) back hp hq h =
    let same : d ≡ e = ap (λ r. r.1) h in
    let kept : e.priv_pem ≡ some p = ap (λ r. r.priv_pem) (sym same) ∙ hp in
    let kept_too : e.pub_pem ≡ some q = ap (λ r. r.pub_pem) (sym same) ∙ hq in
    ap (λ o. by_files crypto later e o e.pub_pem) kept
    ∙ ap (by_files crypto later e (some p)) kept_too
    ∙ ap (λ o. (o, e)) (ap (λ r. r.0) h)
stays crypto fresh later key d e (some p) none back hp hq h = cc (ap (λ r. r.0) h)
stays crypto fresh later key d e none (some q) back hp hq h = cc (ap (λ r. r.0) h)
stays crypto fresh later key d e none none back hp hq h =
    written_stays crypto fresh later key d e d.priv_write d.pub_write back h

-- A key that the directory has given is given from then on, and the files stay as they are, whatever
-- key a later start would generate.
pub ensure_signing_key_pair-stable :
    (crypto : Crypto) (fresh later key : Bytes) (d e : KeyDir)
    → LoadsBack crypto
    → ensure_signing_key_pair crypto true fresh d ≡ (some key, e)
    → ensure_signing_key_pair crypto true later e ≡ (some key, e)
unfolding ensure_signing_key_pair
ensure_signing_key_pair-stable crypto fresh later key d e back h =
    stays crypto fresh later key d e d.priv_pem d.pub_pem back refl refl h

-- Of a new pair, a file for the private half is made, and none for the public half: the private
-- half is written in part, or has not its mode, or the public half cannot be written.
abbrev pub leaves_half : Write → Write → Bool
leaves_half refused q = false
leaves_half (cut_off n) q = true
leaves_half not_chmoded q = true
leaves_half done refused = true
leaves_half done q = false

-- No key, and only a private half
abbrev IsHalf : Option Bytes × KeyDir → Type 0
IsHalf r = (r.0 ≡ none) × ((b : Bytes) × (r.1.priv_pem ≡ some b)) × (r.1.pub_pem ≡ none)

written-IsHalf :
    (crypto : Crypto) (fresh : Bytes) (d : KeyDir) (p q : Write)
    → d.pub_pem ≡ none
    → leaves_half p q ≡ true
    → IsHalf (written crypto fresh d p q)
written-IsHalf crypto fresh d refused q no_pub h = cc h
written-IsHalf crypto fresh d (cut_off n) q no_pub h = (refl, (_, refl), no_pub)
written-IsHalf crypto fresh d not_chmoded q no_pub h = (refl, (_, refl), no_pub)
written-IsHalf crypto fresh d done refused no_pub h = (refl, (_, refl), refl)
written-IsHalf crypto fresh d done (cut_off n) no_pub h = cc h
written-IsHalf crypto fresh d done not_chmoded no_pub h = cc h
written-IsHalf crypto fresh d done done no_pub h = cc h

-- Where the first start leaves a private half without a public one, it gives no key, and no later
-- start gives one or changes a file, whatever key it would generate and however writing would go by
-- then.
pub ensure_signing_key_pair-stuck :
    (crypto : Crypto) (fresh later : Bytes) (d : KeyDir) (priv_write pub_write : Write)
    → d.priv_pem ≡ none
    → d.pub_pem ≡ none
    → leaves_half d.priv_write d.pub_write ≡ true
    → let after = record (ensure_signing_key_pair crypto true fresh d).1 {
      priv_write = priv_write;
      pub_write = pub_write;
    } in
      ((ensure_signing_key_pair crypto true fresh d).0 ≡ none)
      × (ensure_signing_key_pair crypto true later after ≡ (none, after))
unfolding ensure_signing_key_pair
ensure_signing_key_pair-stuck crypto fresh later d priv_write pub_write no_priv no_pub h =
    let first : by_files crypto fresh d d.priv_pem d.pub_pem
        ≡ written crypto fresh d d.priv_write d.pub_write =
      ap (λ o. by_files crypto fresh d o d.pub_pem) no_priv
      ∙ ap (by_files crypto fresh d none) no_pub in
    let (no_key, (b, priv), public) =
      subst IsHalf (sym first) (written-IsHalf crypto fresh d d.priv_write d.pub_write no_pub h) in
    let after = record (by_files crypto fresh d d.priv_pem d.pub_pem).1 {
      priv_write = priv_write;
      pub_write = pub_write;
    } in
    (
      no_key,
      ap (λ o. by_files crypto later after o after.pub_pem) priv
          ∙ ap (by_files crypto later after (some b)) public,
    )
