-- ===== src/Cipher.antt =====
-- `SecureMessageCipher` of src/main/connectivity/SessionCryptography.ts: one side's keys and its two
-- message counters. A bigint is a number; the eight bytes of the nonce bound it.
pub mod Order
use istream.Prelude.{
  ℕ, ◌+◌, String, text_append, Bool, true, false, not, Option, none, some, ltb, ◌==◌, Result, ok,
  thrown, Attempt, pure, throw, lift, modify, refuse_if, ◌>>=◌, ◌>>◌, if◌then◌else◌,
}
use istream.Prelude.Decimals.{to_decimal, of_decimal}
use istream.Platform.{Platform}
use istream.Protocol.{SecureMessage, SecureEnvelope}
use istream.Protocol.Messages.{secure_message}
use istream.Protocol.Encoding.{message_to_json}

pub record Cipher : Type 0 where
  pub session_id : String
  pub transmit_key : String
  pub receive_key : String
  pub transmit_counter : ℕ
  pub receive_counter : ℕ

abbrev pub additional_data : String → String → String
additional_data session_id counter = text_append session_id (text_append ":" counter)

-- `nonce.writeBigUInt64BE(counter, 4)` throws for a counter that eight bytes cannot hold.
abbrev pub counter_limit : ℕ
counter_limit = 18446744073709551616

unfoldable pub nonce : ℕ → Result ℕ
nonce counter =
    if ltb counter counter_limit
    then ok counter
    else thrown "The value of \"value\" is out of range."

module _ (p : Platform) where
  unfoldable pub create : String → String → String → Bool → Cipher
  create session_id secret hash initiator = record {
    session_id = session_id;
    transmit_key =
        if initiator then (p.derive_keys secret hash).0 else (p.derive_keys secret hash).1;
    receive_key =
        if initiator then (p.derive_keys secret hash).1 else (p.derive_keys secret hash).0;
    transmit_counter = 0;
    receive_counter = 0;
  }

  unfoldable pub envelope : SecureMessage → Cipher → ℕ → SecureEnvelope
  envelope message c n = record {
    counter = to_decimal c.transmit_counter;
    ciphertext = sealed.0;
    auth_tag = sealed.1;
  }
    where
      sealed : String × String
      sealed =
          p.seal c.transmit_key n (additional_data c.session_id (to_decimal c.transmit_counter))
            (p.stringify (message_to_json message))

  unfoldable pub encrypt : SecureMessage → Attempt Cipher SecureEnvelope
  unfolding nonce envelope
  encrypt message = do
    modify (λ c. record c { transmit_counter = c.transmit_counter + 1 })
    n ← λ c. (nonce c.transmit_counter, c)
    λ c. (ok (envelope message c n), c)

  plaintext_of : SecureEnvelope → ℕ → Cipher → Result String
  plaintext_of e n c =
      elim (p.unseal c.receive_key n (additional_data c.session_id e.counter) e.ciphertext
        e.auth_tag) [ none ↦ thrown p.unseal_failure | some t ↦ ok t ]

  message_of : String → Result SecureMessage
  message_of t = elim (p.parse t) [ none ↦ thrown p.parse_failure | some v ↦ secure_message v ]

  unfoldable pub decrypt : SecureEnvelope → Attempt Cipher SecureMessage
  unfolding nonce plaintext_of message_of
  decrypt e = do
    λ c.
        refuse_if (not (of_decimal e.counter == c.receive_counter + 1))
          "Secure control message counter is invalid." c
    n ← lift (nonce (of_decimal e.counter))
    t ← λ c. (plaintext_of e n c, c)
    message ← lift (message_of t)
    modify (λ c. record c { receive_counter = of_decimal e.counter })
    pure message
