-- ===== src/Examples/Managers.antt =====
-- A manager with a connection that the other computer opened, and what the theorems state of it.
use istream.Prelude.{◌≤◌, true, false, none, some, List, [], ◌∷◌, ◌≡◌, refl, All, length}
use istream.Contracts.Connectivity.{view_remote}
use istream.Session as S
use istream.Session.{Env, Session}
use istream.Session.Wire.Written.{run-silent, run-counts, total_bytes}
use istream.Prelude.Texts.{byte_length, trim_start, trim_end}
use istream.Protocol.{maximum_frame_bytes}
use istream.Addressing.{
  is_private_ipv4, split_dots, parse_int, signed, unsigned, digit_run, push_front,
}
use istream.Manager.{accept_incoming, Manager, Dial, new_manager, is_available}
use istream.Manager.Events.{
  ManagerEvent, accepts, to_former, disconnects, recording_fires, run, step,
}
use istream.Manager.Consent.{run-former}
use istream.Manager.Displaced.{dial_opened-Displaces, Displaces}
use istream.Manager.Stays.{step-Stays, Stays}
use istream.Manager.{connect}
use istream.Examples.Connecting.{scripted, device, empty_store, now_env, hello_json, connecting}
use istream.Examples.Sessions.{sharing}
use istream.Examples.Hubs.{hub}

-- A connection comes in and is ended, and another one comes in.
abbrev again : List (ManagerEvent × Env)
again =
    (accepts "agreement" "10.0.0.2", now_env)
    ∷ (disconnects, now_env)
    ∷ (accepts "another" "10.0.0.3", now_env)
    ∷ (to_former 0 recording_fires, now_env)
    ∷ []

run-former_example :
    All
      (λ s. s.transport.closed ≡ true)
      (run scripted again (new_manager device empty_store hub)).former
run-former_example = run-former scripted again device empty_store hub

dial : Dial
dial = record {
  endpoint = record { host = "10.0.0.9"; port = 47778 };
  intent = view_remote;
  expected_device_id = none;
}

-- A session is connected while a call of `connect` still waits.
abbrev dialling : Manager
dialling = record {
  identity = device;
  store = empty_store;
  hub = hub;
  session = some sharing;
  former = [];
  dialling = dial ∷ [];
  notifications = 0;
  signals = [];
}

free : Manager
free = record dialling { session = none; dialling = [] }

dial_opened-Displaces_example :
    Displaces scripted now_env "another" "10.0.0.3" dial
      (accept_incoming scripted now_env "agreement" "10.0.0.3" (connect scripted dial free).1).1
unfolding free is_available is_private_ipv4 split_dots parse_int signed unsigned digit_run
    push_front trim_start trim_end
dial_opened-Displaces_example =
    dial_opened-Displaces scripted now_env now_env "agreement" "another" "10.0.0.3" dial free refl
      refl refl

step-Stays_example : Stays scripted dialling sharing (step scripted (disconnects, now_env) dialling)
step-Stays_example = step-Stays scripted (disconnects, now_env) dialling sharing refl refl refl

-- A disposed session is asked for more.
abbrev gone : Session
unfolding S.dispose
gone = S.dispose sharing

abbrev late_events : List (S.Event × Env)
late_events = (S.requests_reversal, now_env) ∷ (S.receives hello_json, now_env) ∷ []

run-silent_example :
    ((S.run scripted late_events gone).transport.closed ≡ true)
    × ((S.run scripted late_events gone).transport.written ≡ gone.transport.written)
unfolding gone
run-silent_example = run-silent scripted late_events gone refl

run-counts_example :
    let t =
      (S.run scripted connecting
        (S.new_session device "agreement" "10.0.0.2" false none empty_store 1000)).transport in
    (t.frames_sent ≡ length t.written)
    × (t.bytes_sent ≡ total_bytes t.written)
    × All (λ frame. byte_length frame ≤ maximum_frame_bytes) t.written
run-counts_example =
    run-counts scripted connecting device "agreement" "10.0.0.2" false none empty_store 1000
