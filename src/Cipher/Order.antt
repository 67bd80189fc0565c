-- ===== src/Cipher/Order.antt =====
-- The order of the messages on a secure channel: rows of messages between two ciphers that share a
-- session, and rows of envelopes at a receiver.
use istream.Prelude.{
  ℕ, ◌+◌, ◌<◌, ◌≡◌, refl, ap, String, true, List, [], ◌∷◌, length, all, ok, thrown, Attempt, pure,
  ◌>>=◌, >>=-eq-ok, arith,
}
use istream.Prelude.Decimals.{of_decimal, of_decimal-to_decimal, to_decimal}
use mathlib.Core.Bool.{and-eq-true_iff}
use istream.Platform.{Platform, Lawful}
use istream.Protocol.Finite.{message_to_json-has_text}
use istream.Protocol.{SecureMessage, SecureEnvelope}
use istream.Protocol.Encoding.{message_to_json}
use istream.Protocol.WellFormed.{message_ok, secure_message-to_json}
use istream.Cipher.{Cipher, counter_limit, encrypt, decrypt, envelope, nonce, additional_data}

-- What `a` writes is what `b` reads next.
pub record Paired (a b : Cipher) : Type 0 where
  pub same_session : a.session_id ≡ b.session_id
  pub same_key : a.transmit_key ≡ b.receive_key
  pub in_step : a.transmit_counter ≡ b.receive_counter

abbrev pub advance_transmit : Cipher → Cipher
advance_transmit c = record c { transmit_counter = c.transmit_counter + 1 }

abbrev pub advance_receive : Cipher → Cipher
advance_receive c = record c { receive_counter = c.receive_counter + 1 }

pub advance-Paired : {a b : Cipher} → Paired a b → Paired (advance_transmit a) (advance_receive b)
advance-Paired h = record {
  same_session = h.same_session;
  same_key = h.same_key;
  in_step = ap (λ n. n + 1) h.in_step;
}

-- The numbers of the envelopes run on from `n`.
abbrev pub RunOn : ℕ → List SecureEnvelope → Type 0
RunOn n [] = Unit
RunOn n (e ∷ es) = (of_decimal e.counter ≡ n + 1) × RunOn (n + 1) es

module _ (p : Platform) where
  abbrev pub sealed : SecureMessage → Cipher → SecureEnvelope
  sealed m a = envelope p m (advance_transmit a) (a.transmit_counter + 1)

  pub encrypt-sealed :
      (m : SecureMessage) (a : Cipher)
      → a.transmit_counter + 1 < counter_limit
      → encrypt p m a ≡ (ok (sealed m a), advance_transmit a)
  unfolding encrypt
  encrypt-sealed m a h = ground arith

  pub decrypt-sealed :
      Lawful p
      → (m : SecureMessage) (a b : Cipher) → Paired a b
      → message_ok m ≡ true
      → a.transmit_counter + 1 < counter_limit
      → decrypt p (sealed m a) b ≡ (ok m, advance_receive b)
  unfolding decrypt envelope
  decrypt-sealed law m a b h good room =
      let data_ : String = additional_data a.session_id (to_decimal (a.transmit_counter + 1)) in
      let plain : String = p.stringify (message_to_json m) in
      ground (
        arith,
        of_decimal-to_decimal (a.transmit_counter + 1),
        law.parse-stringify (message_to_json m) (message_to_json-has_text m good),
        secure_message-to_json m good,
        law.unseal-seal a.transmit_key (a.transmit_counter + 1) data_ plain,
        h.same_session,
        h.same_key,
        h.in_step,
      )

  -- A row of messages encrypted, and a row of envelopes decrypted, each stopping at the first error.
  unfoldable pub transmit : List SecureMessage → Attempt Cipher (List SecureEnvelope)
  transmit [] = pure []
  transmit (m ∷ ms) = do e ← encrypt p m; es ← transmit ms; pure (e ∷ es)

  unfoldable pub receive : List SecureEnvelope → Attempt Cipher (List SecureMessage)
  receive [] = pure []
  receive (e ∷ es) = do m ← decrypt p e; ms ← receive es; pure (m ∷ ms)

  transmit-cons :
      (m : SecureMessage) (ms : List SecureMessage) (a : Cipher) {es : List SecureEnvelope}
      {a' : Cipher}
      → a.transmit_counter + 1 < counter_limit
      → transmit ms (advance_transmit a) ≡ (ok es, a')
      → transmit (m ∷ ms) a ≡ (ok (sealed m a ∷ es), a')
  unfolding transmit
  transmit-cons m ms a h e = rw (encrypt-sealed m a h, e)

  receive-cons :
      (law : Lawful p) (m : SecureMessage) (ms : List SecureMessage) (es : List SecureEnvelope)
      (a b : Cipher) {b' : Cipher}
      → Paired a b
      → message_ok m ≡ true
      → a.transmit_counter + 1 < counter_limit
      → receive es (advance_receive b) ≡ (ok ms, b')
      → receive (sealed m a ∷ es) b ≡ (ok (m ∷ ms), b')
  unfolding receive
  receive-cons law m ms es a b h good room e = rw (decrypt-sealed law m a b h good room, e)

  -- On a lawful platform, any row of well-formed messages for which the sender's counter has room is
  -- encrypted without an error, its envelopes are decrypted to that row by a paired receiver, and the
  -- two are paired afterwards.
  pub receive-transmit :
      Lawful p
      → (ms : List SecureMessage) (a b : Cipher) → Paired a b
      → all message_ok ms ≡ true
      → a.transmit_counter + length ms < counter_limit
      → (es : List SecureEnvelope) × (a' : Cipher) × (b' : Cipher) × (transmit ms a ≡ (ok es, a'))
        × (receive es b ≡ (ok ms, b'))
        × Paired a' b'
  unfolding transmit receive
  receive-transmit law [] a b h good room = ([], a, b, refl, refl, h)
  receive-transmit law (m ∷ ms) a b h good room =
      let (good_m, good_ms) = (and-eq-true_iff (message_ok m) (all message_ok ms)).0 good in
      let (es, a', b', sent, got, h') =
        receive-transmit law ms (advance_transmit a) (advance_receive b) (advance-Paired h) good_ms
          (omega arith) in
      (
        sealed m a ∷ es,
        a',
        b',
        transmit-cons m ms a (omega arith) sent,
        receive-cons law m ms es a b h good_m (omega arith) got,
        h',
      )

  -- An envelope that is refused, for any reason, leaves the cipher as it was.
  pub decrypt-thrown :
      (e : SecureEnvelope) (c : Cipher) {t : String} {c' : Cipher}
      → decrypt p e c ≡ (thrown t, c')
      → c' ≡ c
  unfolding decrypt nonce
  decrypt-thrown e c h = ground arith

  -- An accepted one has the next number.
  decrypt-ok :
      (e : SecureEnvelope) (c : Cipher) {m : SecureMessage} {c' : Cipher}
      → decrypt p e c ≡ (ok m, c')
      → (of_decimal e.counter ≡ c.receive_counter + 1) × (c' ≡ advance_receive c)
  unfolding decrypt nonce
  decrypt-ok e c h = ground arith

  receive-step :
      (e : SecureEnvelope) (es : List SecureEnvelope) (c : Cipher) {ms : List SecureMessage}
      {c' : Cipher}
      → receive (e ∷ es) c ≡ (ok ms, c')
      → (m : SecureMessage) × (rest : List SecureMessage) × (decrypt p e c
          ≡ (ok m, advance_receive c))
        × (receive es (advance_receive c) ≡ (ok rest, c'))
        × (ms ≡ m ∷ rest)
  unfolding receive
  receive-step e es c h =
      let (m, t, here, after) = >>=-eq-ok (decrypt p e) _ c h in
      let same : t ≡ advance_receive c = (decrypt-ok e c here).1 in
      let (rest, u, later, done) = >>=-eq-ok (receive es) _ t after in
      (m, rest, rw (← same) here, ground arith, ground arith)

  -- The numbers of a row of envelopes that is accepted to its end run on by one from the receiver's
  -- counter, so that none is repeated, left out or out of order; each gives one message, and the
  -- counter has grown by their number.
  pub receive-RunOn :
      (es : List SecureEnvelope) (c : Cipher) {ms : List SecureMessage} {c' : Cipher}
      → receive es c ≡ (ok ms, c')
      → RunOn c.receive_counter es
        × (length ms ≡ length es)
        × (c'.receive_counter ≡ c.receive_counter + length es)
  unfolding receive
  receive-RunOn [] c h = ground arith
  receive-RunOn (e ∷ es) c h =
      let (m, rest, here, later, split) = receive-step e es c h in
      let (run, count_, last) = receive-RunOn es (advance_receive c) later in
      (((decrypt-ok e c here).0, run), ground arith, omega arith)
