-- ===== src/Service/Auth/Secret.antt =====
-- The hashes of API key secrets: `hashSecret` of src/internal/core/domain/apikey.go and `verifyArgon2Hash` of
-- src/internal/core/service/auth.go. Argon2 and base64 are a record of operations with the laws that they keep.
use tokmesh_go.Base.{
  ℕ, ◌%◌, ◌^◌, ◌≡◌, refl, ap, ◌∙◌, Bool, true, false, Option, none, some, List, [], ◌∷◌, ◌++◌, ite,
  length, ◌==◌, if◌then◌else◌, arith, ℕ_discrete, dec_lt,
}
use tokmesh_go.Domain.Str.{Str, str_dec, bytes}

-- `strings.Split(hash, "$")`
unfoldable pub split : Str → List Str
split [] = [] ∷ []
split (b ∷ s) =
    let rest = split s in
    if b == 36
    then [] ∷ rest
    else elim rest [ [] ↦ (b ∷ []) ∷ [] | part ∷ parts ↦ (b ∷ part) ∷ parts ]

-- Without a dollar sign.
unfoldable pub is_plain : Str → Bool
is_plain [] = true
is_plain (b ∷ s) = let rest = is_plain s in if b == 36 then false else rest

-- `argon2.IDKey` with the parameters of the code, and `base64.RawStdEncoding`, whose alphabet has no
-- dollar sign.
pub record Argon : Type 0 where
  pub id_key : Str → Str → ℕ → Str
  pub encode : Str → Str
  pub decode : Str → Option Str
  pub length-id_key : (secret salt : Str) (n : ℕ) → length (id_key secret salt n) ≡ n
  pub decode-encode : (s : Str) → decode (encode s) ≡ some s
  pub is_plain-encode : (s : Str) → is_plain (encode s) ≡ true

abbrev pub key_len : ℕ
key_len = 32

module _ (argon : Argon) where
  -- `hashSecret` with the salt that it reads
  unfoldable pub hash_secret : Str → Str → Str
  hash_secret salt secret =
      bytes "$argon2id$v=19$m=16384,t=2,p=2$"
      ++ (argon.encode salt ++ 36 ∷ argon.encode (argon.id_key secret salt key_len))

  -- the comparison in `verifyArgon2Hash`; the length is a `uint32`
  unfoldable pub compare_hash : Str → Str → Str → Bool
  compare_hash secret salt expected =
      ite (str_dec (argon.id_key secret salt (length expected % 2 ^ 32)) expected) true false

  -- `verifyArgon2Hash` on the parts
  unfoldable pub verify_parts : Str → List Str → Bool
  verify_parts secret (p0 ∷ p1 ∷ p2 ∷ p3 ∷ p4 ∷ p5 ∷ []) =
      ite (str_dec p1 (bytes "argon2id"))
        (elim (argon.decode p4) [
          | none ↦ false
          | some salt ↦ elim (argon.decode p5) [
            | none ↦ false
            | some expected ↦ compare_hash secret salt expected
          ]
        ])
        false
  verify_parts secret _ = false

  -- `verifyArgon2Hash`
  unfoldable pub verify_argon2_hash : Str → Str → Bool
  verify_argon2_hash secret hash = verify_parts secret (split hash)

split-plain : (s : Str) → is_plain s ≡ true → split s ≡ s ∷ []
unfolding split is_plain
split-plain [] h = refl
split-plain (b ∷ s) h = ground (arith, h, split-plain s)

split-append : (s rest : Str) → is_plain s ≡ true → split (s ++ 36 ∷ rest) ≡ s ∷ split rest
unfolding split is_plain
split-append [] rest h = refl
split-append (b ∷ s) rest h = ground (arith, h, split-append s rest)

module _ (argon : Argon) where
  split-hash_secret :
      (salt secret : Str)
      → split (hash_secret argon salt secret)
        ≡ []
          ∷ bytes "argon2id"
          ∷ bytes "v=19"
          ∷ bytes "m=16384,t=2,p=2"
          ∷ argon.encode salt
          ∷ argon.encode (argon.id_key secret salt key_len)
          ∷ []
  unfolding hash_secret is_plain
  split-hash_secret salt secret =
      let hash = argon.encode (argon.id_key secret salt key_len) in
      let salted = argon.encode salt ++ 36 ∷ hash in
      let costs = bytes "m=16384,t=2,p=2" ++ 36 ∷ salted in
      let version = bytes "v=19" ++ 36 ∷ costs in
      split-append [] (bytes "argon2id" ++ 36 ∷ version) refl
      ∙ ap (◌∷◌ []) (
          split-append (bytes "argon2id") version refl
          ∙ ap (◌∷◌ (bytes "argon2id")) (
              split-append (bytes "v=19") costs refl
              ∙ ap (◌∷◌ (bytes "v=19")) (
                  split-append (bytes "m=16384,t=2,p=2") salted refl
                  ∙ ap (◌∷◌ (bytes "m=16384,t=2,p=2")) (
                      split-append (argon.encode salt) hash (argon.is_plain-encode salt)
                      ∙ ap (◌∷◌ (argon.encode salt)) (
                          split-plain hash
                            (argon.is_plain-encode (argon.id_key secret salt key_len)))))))

  compare_hash-id_key :
      (salt secret other : Str)
      → compare_hash argon other salt (argon.id_key secret salt key_len)
        ≡ ite
            (str_dec (argon.id_key other salt key_len) (argon.id_key secret salt key_len))
            true
            false
  unfolding compare_hash
  compare_hash-id_key salt secret other =
      ap
        (λ n.
          ite (str_dec (argon.id_key other salt n) (argon.id_key secret salt key_len)) true false)
        (ap (λ n. n % 2 ^ 32) (argon.length-id_key secret salt key_len))

  -- `verifyArgon2Hash` of any secret against the hash that `hashSecret` makes of a secret with a
  -- salt is the comparison of the Argon2 keys of the two secrets with that salt.
  pub verify_argon2_hash-hash_secret :
      (salt secret other : Str)
      → verify_argon2_hash argon other (hash_secret argon salt secret)
        ≡ ite
            (str_dec (argon.id_key other salt key_len) (argon.id_key secret salt key_len))
            true
            false
  unfolding verify_argon2_hash verify_parts str_dec ℕ_discrete dec_lt
  verify_argon2_hash-hash_secret salt secret other =
      ap (verify_parts argon other) (split-hash_secret salt secret)
      ∙ ground (
        arith,
        argon.decode-encode salt,
        argon.decode-encode (argon.id_key secret salt key_len),
        compare_hash-id_key salt secret other,
      )
