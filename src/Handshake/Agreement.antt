-- ===== src/Handshake/Agreement.antt =====
-- The handshake of two honest computers: their hellos, their secrets and their ciphers.
use istream.Prelude.{String, true, false, ◌≡◌, refl, ok}
use text.Mathlib.TextPositions.{eq_refl}
use istream.Contracts.Connectivity.{ConnectionIntent}
use istream.Platform.{Platform, Lawful}
use istream.Protocol.{ClientHello}
use istream.Handshake.{
  DeviceIdentity, create_client_hello, create_server_hello, verify_client_hello,
  verify_server_hello, unsigned_client, unsigned_server, derive_shared_secret, device_id,
}
use istream.Cipher.{create}
use istream.Cipher.Order.{Paired}

module _ (p : Platform) (law : Lawful p) where
  -- On a lawful platform, the client's hello that a device creates is verified, whatever its session,
  -- its key, its nonce and its direction.
  pub verify_client_hello-create :
      (d : DeviceIdentity) (session_id agreement nonce : String) (i : ConnectionIntent)
      → verify_client_hello p (create_client_hello p d session_id agreement i nonce) ≡ ok true
  unfolding verify_client_hello create_client_hello unsigned_client device_id
  verify_client_hello-create d session_id agreement nonce i = simp (eq_refl, law.verify-sign)

  -- On a lawful platform, the server's hello that a device creates as the answer to any client's hello
  -- is verified against that hello.
  pub verify_server_hello-create :
      (d : DeviceIdentity) (client : ClientHello) (agreement nonce : String)
      → verify_server_hello p (create_server_hello p d client agreement nonce) client ≡ ok true
  unfolding verify_server_hello create_server_hello unsigned_server device_id
  verify_server_hello-create d client agreement nonce = simp (eq_refl, law.verify-sign)

  -- On a lawful platform, when a client's hello carries the public key of `a` and the server answers
  -- with that of `b`, both sides derive one secret, and the ciphers that they create of it, for any
  -- hash of the session, are paired in both directions.
  pub create-Paired :
      (client : ClientHello) (d : DeviceIdentity) (a b nonce hash : String)
      → client.ephemeral_public_key ≡ p.public_key a
      → (secret : String) × (derive_shared_secret p a
            (create_server_hello p d client b nonce).ephemeral_public_key
          ≡ ok secret)
        × (derive_shared_secret p b client.ephemeral_public_key ≡ ok secret)
        × Paired
            (create p client.session_id secret hash true)
            (create p client.session_id secret hash false)
        × Paired
            (create p client.session_id secret hash false)
            (create p client.session_id secret hash true)
  unfolding derive_shared_secret create_server_hello unsigned_server create
  create-Paired client d a b nonce hash e =
      let (secret, here, there) = law.agreement a b in
      (
        secret,
        rw here,
        rw (e, there),
        record { same_session = refl; same_key = refl; in_step = refl },
        record { same_session = refl; same_key = refl; in_step = refl },
      )
