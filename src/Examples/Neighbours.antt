-- ===== src/Examples/Neighbours.antt =====
-- A discovery service among others, and what the theorems on it state.
use istream.Prelude.{
  ℕ, ◌+◌, ◌*◌, ◌≤◌, String, Bool, true, none, some, List, [], ◌∷◌, ◌≡◌, refl, arith, length, All,
}
use istream.Prelude.Texts.{text_length}
use istream.Contracts.Diagnostics.{int}
use istream.Values.{object, field, end, text, number}
use istream.Platform.{Platform}
use istream.Handshake.{device_id, device_id_for_public_key}
use istream.Discovery.{beacon, probe, encode, encode_probe, decode, new_discovery}
use istream.Discovery.Events.{DiscoveryEvent, starts, receives, expiry_fires, refreshes, run}
use istream.Discovery.Codec.{decode-encode}
use istream.Discovery.Peers.{run-is_known, is_known}
use istream.Discovery.Probes.{Arrival, receive_all, receive_all-length}
use istream.Examples.Plain.{plain, plain-Lawful}
use istream.Examples.Connecting.{scripted, device, empty_store}

abbrev by_name : String → String → Bool
by_name a b = true

-- A platform that reads every text as the beacon of another computer.
abbrev hearing : Platform
hearing = record scripted {
  parse = λ t. some (
      object (
        field "kind" (text "istream-beacon") (
          field "protocolVersion" (number (int 2)) (
            field "deviceId" (text "abcdefabcdefabcdefabcdefabcdefab") (
              field "displayName" (text "Laptop") (
                field "controlPort" (number (int 50000))
                  (field "sentAt" (number (int 1500)) end)))))));
}

abbrev day : List (DiscoveryEvent × ℕ)
day =
    (starts none 47778, 1000)
    ∷ (receives empty_store "10.0.0.2" "REAL", 1500)
    ∷ (refreshes, 2000)
    ∷ (expiry_fires, 9000)
    ∷ []

run-is_known_example :
    All
      (λ e. is_known (device_id hearing device) e ≡ true)
      (run hearing by_name day (new_discovery device)).peers
run-is_known_example = run-is_known hearing by_name device day

abbrev arrivals : List Arrival
arrivals =
    record { now = 600; store = empty_store; address = "10.0.0.2"; message = "REAL" }
    ∷ record { now = 700; store = empty_store; address = "10.0.0.3"; message = "YESS" }
    ∷ []

receive_all-length_example :
    500 * length (receive_all scripted by_name arrivals (new_discovery device)).sent + 0
    ≤ 500 * 0 + 800
unfolding new_discovery
receive_all-length_example =
    receive_all-length scripted by_name 800 arrivals (new_discovery device)
      (omega arith, (omega arith, tt)) (omega arith)

decode-encode_example :
    (decode plain (encode plain device 50000 1000)
      ≡ some (
          beacon (record {
            device_id = device_id plain device;
            display_name = "Desk";
            control_port = 50000;
            sent_at = int 1000;
          })))
    × (decode plain (encode_probe plain device 1000)
        ≡ some (probe (record { device_id = device_id plain device; sent_at = int 1000 })))
unfolding device_id device_id_for_public_key plain text_length
decode-encode_example =
    decode-encode plain plain-Lawful device 50000 1000 refl refl (omega arith) (omega arith)
