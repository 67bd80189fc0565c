-- ===== src/Examples/Plain.antt =====
-- A platform whose cryptography hides nothing: a sealed text is the text, a signature is a
-- constant, and a shared secret is the same from both sides. It is an instance of `Lawful`.
use istream.Prelude.{some, none, str_eq, if◌then◌else◌, refl, arith}
use package.text.Mathlib.TextPositions.{eq_refl}
use istream.Platform.{Platform, Lawful}
use istream.Examples.Codec.{stringify, parse, parse-stringify}

unfoldable pub plain : Platform
plain = record {
  stringify = stringify;
  parse = parse;
  parse_failure = "Unexpected token";
  seal = λ key nonce data_ plaintext. (plaintext, key);
  unseal = λ key nonce data_ ciphertext tag. if str_eq tag key then some ciphertext else none;
  unseal_failure = "Unsupported state or unable to authenticate data";
  derive_keys = λ secret hash. ("aaaa", "bbbb");
  public_key = λ private_key. "cccc";
  shared_secret = λ private_key remote. some "secret";
  digest = λ content. "dddd";
  hex_digest = λ content. "0123456789abcdef0123456789abcdef0123456789abcdef0123456789abcdef";
  leading_word = λ first second. 4042;
  sign = λ private_key payload. "eeee";
  verify = λ public_key payload signature. some (str_eq signature "eeee");
  identity_public_key = λ private_key. "ffff";
  key_failure = "Invalid key";
}

pub plain-Lawful : Lawful plain
unfolding plain
plain-Lawful = record {
  parse-stringify = λ v finite. parse-stringify v;
  unseal-seal = λ key nonce data_ plaintext. ground (arith, eq_refl key);
  verify-sign = λ private_key payload. refl;
  agreement = λ a b. ("secret", refl, refl);
}
