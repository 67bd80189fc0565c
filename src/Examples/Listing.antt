-- ===== src/Examples/Listing.antt =====
-- What the window lists for a trusted computer, and the calls of the window.
use istream.Prelude.{String, Bool, true, some, [], ◌∷◌, ◌≡◌, refl}
use istream.Contracts.Connectivity.{view_remote}
use istream.Trust.{Store, PairedPeerRecord, records}
use istream.Manager.{idle_connection}
use istream.Facade.{new_facade}
use istream.Facade.Descriptors.{peer_descriptors}
use istream.Facade.Complete.{lists_paired, peer_descriptors-lists_paired}
use istream.Facade.Operations.{
  connect_discovered, perform, end_operation, notify_listeners, find_peer,
}
use istream.Examples.Connecting.{scripted}
use istream.Examples.Hubs.{hub}

abbrev by_name : String → String → Bool
by_name a b = true

abbrev laptop : PairedPeerRecord
laptop = record {
  intent = view_remote;
  device_id = "d7";
  display_name = "Laptop";
  public_key_der = "ffff";
  last_address = "10.0.0.7";
  trusted_at = 1000;
  expires_at = 9000;
}

abbrev trusting : Store
trusting = record { peers = ("d7:view-remote", laptop) ∷ []; written = [] }

peer_descriptors-lists_paired_example :
    lists_paired "d7" (peer_descriptors by_name 2000 idle_connection [] (some trusting)) ≡ true
unfolding records
peer_descriptors-lists_paired_example =
    peer_descriptors-lists_paired by_name 2000 idle_connection [] trusting "d7" refl

-- A call for a computer that nobody hears fails, and its message is kept for the window.
unknown_peer :
    (connect_discovered scripted by_name "d7" view_remote (new_facade hub)).1.last_operation_error
    ≡ some "That discovered peer is no longer available."
unfolding connect_discovered perform end_operation notify_listeners new_facade find_peer
unknown_peer = refl
