-- ===== src/Discovery/Codec.antt =====
-- What one computer announces and another one reads.
use istream.Prelude.{ℕ, ◌≤◌, true, some, ◌≡◌, refl, arith}
use istream.Contracts.Diagnostics.{int}
use istream.Values.{get, integer_within, has_text, is_finite}
use istream.Platform.{Platform, Lawful}
use istream.Handshake.{DeviceIdentity, device_id}
use istream.Discovery.{
  beacon, probe, encode, encode_probe, decode, decode_value, decode_beacon, decode_probe,
  has_length_32, fits_name,
}

-- A beacon and a probe are read as what they announce, if the sender's identifier has 32 characters,
-- its name 1 to 64, and its port lies from 1024 to 65535.
pub decode-encode :
    (p : Platform) (lawful : Lawful p) (identity : DeviceIdentity) (control_port now : ℕ)
    → has_length_32 (device_id p identity) ≡ true
    → fits_name identity.display_name ≡ true
    → 1024 ≤ control_port
    → control_port ≤ 65535
    → (decode p (encode p identity control_port now)
        ≡ some (
            beacon (record {
              device_id = device_id p identity;
              display_name = identity.display_name;
              control_port = control_port;
              sent_at = int now;
            })))
      × (decode p (encode_probe p identity now)
          ≡ some (probe (record { device_id = device_id p identity; sent_at = int now })))
unfolding decode encode encode_probe decode_value decode_beacon decode_probe get integer_within
    has_text is_finite
decode-encode p lawful identity control_port now h name low high = (
  rw (lawful.parse-stringify _ refl) (ground arith),
  rw (lawful.parse-stringify _ refl) (ground arith),
)
