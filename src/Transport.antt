-- ===== src/Transport.antt =====
-- `JsonLineTransport` of src/main/connectivity/JsonLineTransport.ts: JSON messages as lines over a
-- stream of text. `written` is what was handed to the socket, latest first. The object that listens
-- has the state `L`; its listeners get the transport too, since they may close it, and throw nothing.
use istream.Prelude.{
  ℕ, zero, suc, ◌+◌, String, text_append, Bool, true, false, Option, none, some, List, [], ◌∷◌, ltb,
  if◌then◌else◌, Attempt, modify, refuse_if, ◌>>◌, str_eq,
}
use istream.Prelude.Texts.{byte_length}
use istream.Values.{Json}
use istream.Platform.{Platform}

pub record Transport : Type 0 where
  pub maximum_frame_bytes : ℕ
  pub buffer : String
  pub closed : Bool
  pub frames_sent : ℕ
  pub frames_received : ℕ
  pub bytes_sent : ℕ
  pub bytes_received : ℕ
  pub written : List String

unfoldable pub open_transport : ℕ → Transport
open_transport limit = record {
  maximum_frame_bytes = limit;
  buffer = "";
  closed = false;
  frames_sent = 0;
  frames_received = 0;
  bytes_sent = 0;
  bytes_received = 0;
  written = [];
}

-- `close` also destroys the socket, which ends the stream of chunks.
unfoldable pub close : Transport → Transport
close t = record t { closed = true }

-- The first line of a text and what follows its line break, if there is one.
unfoldable pub take_line : String → Option (String × String)
take_line String.[] = none
take_line (String.◌∷◌ c s) = elim (str_eq (String.◌∷◌ c "") "\n") [
  | true ↦ some ("", s)
  | false ↦ elim (take_line s) [ none ↦ none | some (line, rest) ↦ some (String.◌∷◌ c line, rest) ]
]

module _ (p : Platform) where
  abbrev pub frame_of : Json → String
  frame_of message = text_append (p.stringify message) "\n"

  unfoldable pub send : Json → Attempt Transport (Unit {0})
  send message = do
    λ t. refuse_if t.closed "The control connection is closed." t
    λ t.
        refuse_if (ltb t.maximum_frame_bytes (byte_length (frame_of message)))
          "The control message is too large." t
    modify λ t. record t {
      frames_sent = t.frames_sent + 1;
      bytes_sent = t.bytes_sent + byte_length (frame_of message);
      written = frame_of message ∷ t.written;
    }

  module _ {L : Type 0} (on_message : Json → Transport × L → Transport × L)
      (on_closed : String → Transport × L → Transport × L) where
    unfoldable pub notify_closed : String → Transport × L → Transport × L
    notify_closed reason (t, l) =
        if t.closed then (t, l) else on_closed reason (record t { closed = true }, l)

    abbrev closing : Transport × L → Transport × L
    closing s = (close s.0, s.1)

    parse_line : String → Transport × L → Transport × L
    unfolding notify_closed close
    parse_line line s = elim (p.parse line) [
      | none ↦ closing (notify_closed "The peer sent invalid control data." s)
      | some v ↦ on_message v s
    ]

    refuse_oversized : Transport × L → Transport × L
    unfolding notify_closed close
    refuse_oversized s = closing (notify_closed "The peer sent an oversized control message." s)

    -- One line that the loop has cut off the buffer.
    unfoldable pub accept_line : String → Transport × L → Transport × L
    unfolding parse_line
    accept_line line (t, l) =
        parse_line line (record t { frames_received = t.frames_received + 1 }, l)

    abbrev oversized : ℕ → Transport → Bool
    oversized size t = ltb t.maximum_frame_bytes size

    -- The loop of `handleData` with the test behind it. Each round takes at least a line break off
    -- the buffer, so that as many rounds as it has characters are enough.
    unfoldable pub drain : ℕ → Transport × L → Transport × L
    unfolding accept_line refuse_oversized
    drain zero s = s
    drain (suc f) (t, l) = elim (take_line t.buffer) [
      | none ↦ if oversized (byte_length t.buffer) t then refuse_oversized (t, l) else (t, l)
      | some (line, rest) ↦
          let cut : Transport = record t { buffer = rest } in
          let skipped = drain f (cut, l) in
          let accepted = drain f (accept_line line (cut, l)) in
          if str_eq line ""
          then skipped
          else if oversized (byte_length line + 1) t
          then refuse_oversized (cut, l)
          else accepted
    ]

    unfoldable pub handle_data : String → Transport × L → Transport × L
    unfolding drain
    handle_data chunk (t, l) =
        let buffer = text_append t.buffer chunk in
        drain (suc (byte_length buffer))
          (record t { buffer = buffer; bytes_received = t.bytes_received + byte_length chunk }, l)
