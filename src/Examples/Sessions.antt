-- ===== src/Examples/Sessions.antt =====
-- Sessions at work, and what the theorems on sessions state of them.
use istream.Prelude.{ℕ, Bool, true, false, none, some, List, [], ◌∷◌, ◌≡◌, refl, str_eq, arith}
use istream.Prelude.Maps.{lookup}
use istream.Prelude.Texts.{matches_six_digits, trim}
use istream.Contracts.Connectivity.{
  viewer, sharer, view_remote, ConsentPromptDescriptor, pairing, enter_verification_code,
}
use istream.Contracts.Diagnostics.{DiagnosticRecord, int, network, information}
use istream.Cipher.{Cipher, encrypt}
use istream.Transport as T
use istream.Transport.{open_transport}
use istream.Session.State.{
  Session, new_session, by_prompt, PeerSessionPhase, connected, is_connected,
}
use istream.Session.Closing.{
  close_with_error, disconnect_with, handle_transport_closed, dispose, send_secure,
}
use istream.Session.Reversal.{
  respond_to_reversal, handle_reversal_decision, batches_of, send_batches,
}
use istream.Session.Establish.{
  establish, respond_to_prompt, answer, code_matches, settle, give_consent,
  try_establish_connection,
}
use istream.Session.Roles.{opposite, establish-opposite, reversal-opposite}
use istream.Session.Answers.{respond_to_prompt-code, respond_to_prompt-refused}
use istream.Session.Closed.{IsShut, IsAgreed, close-IsShut, settle-reopens}
use istream.Session.Unasked.{Unasked, receive_lines, receive_lines-Unasked}
use istream.Session.Batches.{batches_sent, receive_batches, Resolved, receive_batches-batches_of}
use istream.Session.Batches.Cut.{at_most_ten}
use istream.Examples.Connecting.{scripted, device, empty_store, now_env, hello_json, sealed_json}

abbrev cipher : Cipher
cipher = record {
  session_id = "s1";
  transmit_key = "bbbb";
  receive_key = "aaaa";
  transmit_counter = 3;
  receive_counter = 5;
}

abbrev pub fresh : Bool → Session
unfolding new_session
fresh initiator = new_session device "agreement" "10.0.0.2" initiator none empty_store 1000

-- The side that shows its screen, and asked to change that.
abbrev pub sharing : Session
sharing = record (fresh true) {
  phase = connected;
  cipher = some cipher;
  role = sharer;
  pending_outgoing_reversal_id = some "r1";
}

abbrev viewing : Session
viewing = record (fresh false) {
  phase = connected;
  cipher = some cipher;
  role = viewer;
  pending_incoming_reversal_id = some "r1";
}

abbrev code_prompt : ConsentPromptDescriptor
code_prompt = record {
  prompt_id = "u1";
  kind = pairing;
  mode = enter_verification_code;
  peer_name = "Laptop";
  verification_code = none;
  intent = some view_remote;
  known_peer = false;
}

abbrev asked : Session
asked = record (fresh false) {
  phase = PeerSessionPhase.awaiting_consent;
  cipher = some cipher;
  prompt = some code_prompt;
  verification_code = some "004042";
}

-- Both users have agreed, on the side that does not know the other computer yet.
abbrev agreed : Session
agreed = record asked {
  prompt = none;
  intent = some view_remote;
  peer =
      some (record {
        device_id = "d1";
        display_name = "Laptop";
        address = "10.0.0.2";
        paired = false;
      });
  peer_public_key = some "ffff";
  local_consent = some true;
  remote_consent = some true;
}

abbrev sample : ℕ → DiagnosticRecord
sample n = record {
  schema_version = 1;
  sequence = n;
  timestamp = int 1000;
  origin_device_id = "0123456789abcdef0123456789abcdef";
  origin_display_name = "Desk";
  category = network;
  severity = information;
  event = "connection.sample";
  values = [];
}

abbrev samples : List DiagnosticRecord
samples =
    sample 1
    ∷ sample 2
    ∷ sample 3
    ∷ sample 4
    ∷ sample 5
    ∷ sample 6
    ∷ sample 7
    ∷ sample 8
    ∷ sample 9
    ∷ sample 10
    ∷ sample 11
    ∷ sample 12
    ∷ []

abbrev asking : Session
asking = record sharing {
  pending_diagnostic_requests = ("q1", record { limit = 20; records = [] }) ∷ [];
}

establish-opposite_example :
    opposite
      (establish scripted now_env view_remote sharing).role
      (establish scripted now_env view_remote viewing).role
    ≡ true
unfolding fresh
establish-opposite_example =
    establish-opposite scripted scripted now_env now_env view_remote sharing viewing refl

reversal-opposite_example :
    (opposite
        (handle_reversal_decision scripted now_env "r1" true sharing).1.role
        (respond_to_reversal scripted now_env true viewing).1.role
      ≡ true)
    × ((handle_reversal_decision scripted now_env "r1" true sharing).1.pending_outgoing_reversal_id
        ≡ none)
unfolding respond_to_reversal send_secure encrypt T.send fresh
reversal-opposite_example =
    reversal-opposite scripted scripted now_env now_env "r1" true sharing viewing refl refl refl

respond_to_prompt-code_example :
    (code_matches (some "004042") (some " 004042") ≡ true) × (str_eq "u1" "u1" ≡ true)
unfolding respond_to_prompt answer send_secure encrypt T.send code_matches matches_six_digits trim
    give_consent fresh
respond_to_prompt-code_example =
    respond_to_prompt-code scripted now_env "u1" (some " 004042") code_prompt asked refl refl refl
      refl

respond_to_prompt-refused_example :
    (respond_to_prompt scripted now_env "u1" true (some "004043") asked).1 ≡ asked
unfolding code_matches matches_six_digits trim
respond_to_prompt-refused_example =
    respond_to_prompt-refused scripted now_env "u1" (some "004043") code_prompt asked refl refl refl
      refl

close-IsShut_example :
    (IsShut sharing (close_with_error scripted now_env "Lost." false sharing)
      × ((close_with_error scripted now_env "Lost." false sharing).prompt ≡ none))
    × (IsShut sharing (disconnect_with scripted now_env "Lost." sharing)
        × ((disconnect_with scripted now_env "Lost." sharing).prompt ≡ none))
    × (IsShut sharing (handle_transport_closed scripted now_env "Lost." sharing)
        × ((handle_transport_closed scripted now_env "Lost." sharing).prompt ≡ none))
    × IsShut sharing (dispose sharing)
unfolding fresh
close-IsShut_example = close-IsShut scripted now_env "Lost." false sharing refl refl

agreed-IsAgreed : IsAgreed agreed
unfolding fresh
agreed-IsAgreed = record {
  peer = record { device_id = "d1"; display_name = "Laptop"; address = "10.0.0.2"; paired = false };
  public_key = "ffff";
  intent = view_remote;
  peer_is = refl;
  unknown = refl;
  key_is = refl;
  intent_is = refl;
  incoming = refl;
  here = refl;
  there = refl;
  idle_ = refl;
  live = refl;
}

-- The user is asked, and the other computer sends a hello and another `ready`.
receive_lines-Unasked_example : Unasked none (
    receive_lines scripted
      ((hello_json, now_env) ∷ (sealed_json "6" "REAL", now_env) ∷ [])
      (record agreed { local_consent = none }))
unfolding fresh
receive_lines-Unasked_example =
    receive_lines-Unasked scripted none
      ((hello_json, now_env) ∷ (sealed_json "6" "REAL", now_env) ∷ [])
      (record agreed { local_consent = none })
      (record { consent = refl; called = refl; stranger = refl; greeted = refl })

settle-reopens_example :
    let waiting = try_establish_connection scripted now_env by_prompt agreed in
    let ended = disconnect_with scripted now_env "Bye." waiting in
    let late = settle scripted now_env ended in
    IsShut waiting ended
    × (is_connected late.phase ≡ true)
    × (late.transport.closed ≡ true)
    × (late.keep_alive_timer ≡ true)
    × (late.diagnostic_timer ≡ true)
settle-reopens_example =
    settle-reopens scripted now_env now_env now_env by_prompt "Bye." agreed agreed-IsAgreed

receive_batches-batches_of_example :
    (at_most_ten (batches_sent (batches_of scripted now_env "q1" samples viewing).1.effects) ≡ true)
    × Resolved scripted now_env "q1" samples asking (
        receive_batches scripted now_env "q1"
          (batches_sent (batches_of scripted now_env "q1" samples viewing).1.effects)
          asking)
unfolding batches_of send_batches send_secure encrypt T.send lookup fresh
receive_batches-batches_of_example =
    receive_batches-batches_of scripted scripted now_env now_env "q1" 20 samples asking viewing refl
      refl refl (omega arith)
