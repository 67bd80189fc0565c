-- ===== src/Platform.antt =====
-- The code that the repository does not contain and that its control connection calls: node:crypto,
-- and the language's JSON. Keys, digests and signatures are texts (their base64 form).
-- `Lawful` states what the documentation of each promises and the proofs rely on.
use istream.Prelude.{ℕ, ◌≡◌, String, Bool, true, Option, some}
use istream.Values.{Json, has_text}

pub record Platform : Type 0 where
  -- `JSON.stringify` of a value without absent properties, and `JSON.parse`.
  pub stringify : Json → String
  pub parse : String → Option Json
  pub parse_failure : String
  -- AES-256-GCM under a key, a counter nonce and associated data: ciphertext and tag.
  pub seal : (key : String) (nonce : ℕ) (data_ plaintext : String) → String × String
  pub unseal : (key : String) (nonce : ℕ) (data_ ciphertext tag : String) → Option String
  pub unseal_failure : String
  -- The two halves of the key material that HKDF derives from the secret and the session's hash.
  pub derive_keys : (secret hash : String) → String × String
  -- X25519: the public key of a private key, and the shared secret.
  pub public_key : (private_key : String) → String
  pub shared_secret : (private_key remote_public_key : String) → Option String
  -- SHA-256: in base64, the hexadecimal digits of a key's digest, and of two texts one after the
  -- other the first four bytes as a number.
  pub digest : String → String
  pub hex_digest : String → String
  pub leading_word : (first second : String) → ℕ
  -- Ed25519.
  pub sign : (private_key payload : String) → String
  pub verify : (public_key payload signature : String) → Option Bool
  pub identity_public_key : (private_key : String) → String
  -- The message of the error for a public key that is none: `none` of the two calls above.
  pub key_failure : String

pub record Lawful (p : Platform) : Type 0 where
  pub parse-stringify : (v : Json) → has_text v ≡ true → p.parse (p.stringify v) ≡ some v
  pub unseal-seal :
      (key : String) (nonce : ℕ) (data_ plaintext : String)
      → p.unseal key nonce data_
          (p.seal key nonce data_ plaintext).0
          (p.seal key nonce data_ plaintext).1
        ≡ some plaintext
  pub verify-sign :
      (private_key payload : String)
      → p.verify (p.identity_public_key private_key) payload (p.sign private_key payload)
        ≡ some true
  pub agreement :
      (a b : String)
      → (secret : String) × (p.shared_secret a (p.public_key b) ≡ some secret)
        × (p.shared_secret b (p.public_key a) ≡ some secret)
