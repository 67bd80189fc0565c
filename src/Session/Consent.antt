-- ===== src/Session/Consent.antt =====
-- From the socket to the consent phase: `start`, `handleClientHello`, `handleServerHello` and
-- `enterConsentPhase`, with the first steps of a connection.
use istream.Prelude.{
  ◌+◌, String, Bool, true, false, not, ◌&&◌, Option, none, some, str_eq, if◌then◌else◌, Result, ok,
  thrown, Attempt, lift, modify, refuse_if, ◌>>=◌, ◌>>◌,
}
use istream.Contracts.Connectivity.{
  ConnectionIntent, view_remote, share_local, LocalMediaRole, viewer, sharer,
  ConnectedPeerDescriptor, pairing, waiting_for_peer, enter_verification_code,
  ConsentPromptDescriptor,
}
use istream.Platform.{Platform}
use istream.Protocol as P
use istream.Protocol.Encoding.{client_to_json, server_to_json}
use istream.Cipher.{create}
use istream.Handshake.{
  create_client_hello, create_server_hello, verify_client_hello, verify_server_hello,
  derive_shared_secret, session_hash, verification_code,
}
use istream.Trust.{is_trusted}
use istream.Session.State.{
  Session, Env, awaiting_secure_ready, awaiting_secure_acknowledgement, awaiting_consent,
  notify_changed,
}
use istream.Session.Closing.{send_secure, send_plain, record_local_diagnostics}

abbrev pub given : Option Bool → Bool
given (some true) = true
given _ = false

abbrev pub unpaired : Option ConnectedPeerDescriptor → Bool
unpaired none = false
unpaired (some peer) = not peer.paired

abbrev pub differs : Option String → String → Bool
differs none s = false
differs (some t) s = not (str_eq s t)

unfoldable pub initial_role : Bool → ConnectionIntent → LocalMediaRole
initial_role true view_remote = viewer
initial_role false view_remote = sharer
initial_role true share_local = sharer
initial_role false share_local = viewer

module _ (p : Platform) (env : Env) where
  unfoldable pub create_peer : String → String → String → Session → ConnectedPeerDescriptor
  create_peer device_id display_name public_key s = record {
    device_id = device_id;
    display_name = display_name;
    address = s.remote_address;
    paired = elim s.intent [
      | none ↦ false
      | some intent ↦ not s.initiator && is_trusted env.now device_id public_key intent s.store
    ];
  }

  unfoldable pub start : Option ConnectionIntent → Attempt Session (Unit {0})
  start intent s =
      if s.initiator
      then (elim intent [
        | none ↦ (
          thrown "An outgoing connection requires a direction.",
          record s { handshake_timer = true },
        )
        | some direction ↦
            let hello =
              create_client_hello p s.identity env.uuid s.agreement direction env.random in
            (send_plain p (client_to_json hello) >>= λ _. modify notify_changed) (record s {
              handshake_timer = true;
              intent = some direction;
              client_hello = some hello;
            })
      ])
      else (ok tt, notify_changed (record s { handshake_timer = true }))

  -- `createCipher`, whose two callers have both hellos.
  unfoldable pub create_cipher : Bool → P.ClientHello → P.ServerHello → Attempt Session (Unit {0})
  create_cipher initiator client server = do
    secret ← λ s. (
      derive_shared_secret p s.agreement
          (if initiator then server.ephemeral_public_key else client.ephemeral_public_key),
      s,
    )
    modify λ s. record s {
      verification_code = some (verification_code p secret (session_hash p client server));
      cipher = some (create p client.session_id secret (session_hash p client server) initiator);
    }

  unfoldable pub refuse_unless : Result Bool → String → Attempt Session (Unit {0})
  refuse_unless r message = do verified ← lift r; refuse_if (not verified) message

  unfoldable pub handle_client_hello : P.ClientHello → Attempt Session (Unit {0})
  handle_client_hello m = do
    refuse_unless (verify_client_hello p m) "The remote identity signature is invalid."
    modify λ s. record s { client_hello = some m; intent = some m.intent }
    modify λ s. record s {
      peer_public_key = some m.identity_public_key;
      peer = some (create_peer m.device_id m.display_name m.identity_public_key s);
      server_hello = some (create_server_hello p s.identity m s.agreement env.random);
    }
    λ s. send_plain p (server_to_json (create_server_hello p s.identity m s.agreement env.random)) s
    λ s. create_cipher false m (create_server_hello p s.identity m s.agreement env.random) s
    modify λ s. notify_changed (record s { phase = awaiting_secure_ready })

  unfoldable pub accept_server_hello : P.ClientHello → P.ServerHello → Attempt Session (Unit {0})
  accept_server_hello client m = do
    refuse_unless (verify_server_hello p m client) "The remote identity signature is invalid."
    λ s.
        refuse_if (differs s.expected_device_id m.device_id)
          "The discovered peer identity changed before connection." s
    modify λ s. record s {
      server_hello = some m;
      peer_public_key = some m.identity_public_key;
      peer = some (create_peer m.device_id m.display_name m.identity_public_key s);
    }
    create_cipher true client m
    modify λ s. record s { phase = awaiting_secure_acknowledgement }
    send_secure p P.ready
    modify notify_changed

  unfoldable pub handle_server_hello : P.ServerHello → Attempt Session (Unit {0})
  handle_server_hello m s = elim s.client_hello [
    | none ↦ (thrown "The remote identity signature is invalid.", s)
    | some client ↦ accept_server_hello client m s
  ]

  unfoldable pub start_keep_alive : Session → Session
  start_keep_alive s =
      if s.keep_alive_timer
      then s
      else record s { last_secure_message_at = env.now; keep_alive_timer = true }

  -- The interval of an earlier call keeps running, with nothing left to clear it.
  unfoldable pub start_diagnostics_recording : Session → Session
  start_diagnostics_recording s =
      let t = record_local_diagnostics p env s in
      record t {
        diagnostic_timer = true;
        stray_timers = (if t.diagnostic_timer then 1 else 0) + t.stray_timers;
      }

  unfoldable pub prompt_for :
      ConnectedPeerDescriptor → ConnectionIntent → String → Session → ConsentPromptDescriptor
  prompt_for peer intent code s = record {
    prompt_id = env.uuid;
    kind = pairing;
    mode = if s.initiator then waiting_for_peer else enter_verification_code;
    peer_name = peer.display_name;
    verification_code = if s.initiator then some code else none;
    intent = some intent;
    known_peer = false;
  }

  -- The responder's consent for a peer that it knows, or the prompt.
  unfoldable pub ask_or_agree :
      ConnectedPeerDescriptor → ConnectionIntent → String → Attempt Session (Unit {0})
  ask_or_agree peer intent code s =
      if not s.initiator && peer.paired
      then send_secure p (P.consent_decision true)
          (record s { prompt = none; local_consent = some true })
      else (ok tt, record s { prompt = some (prompt_for peer intent code s) })

  unfoldable pub agree_as_initiator : Attempt Session (Unit {0})
  agree_as_initiator s =
      if s.initiator
      then send_secure p (P.consent_decision true) (record s { local_consent = some true })
      else (ok tt, s)

  unfoldable pub enter_consent_phase : Attempt Session (Unit {0})
  unfolding start_keep_alive
  enter_consent_phase s =
      let t : Session = record s { handshake_timer = false } in
      elim t.peer [
        | none ↦ (thrown "Peer consent context is incomplete.", t)
        | some peer ↦ elim t.intent [
          | none ↦ (thrown "Peer consent context is incomplete.", t)
          | some intent ↦ elim t.verification_code [
            | none ↦ (
              thrown "The secure connection verification code is unavailable.",
              record t { phase = awaiting_consent },
            )
            | some code ↦
                (ask_or_agree peer intent code >>= λ _.
                agree_as_initiator >>= λ _. modify notify_changed)
                  (start_keep_alive (record t { phase = awaiting_consent }))
          ]
        ]
      ]
