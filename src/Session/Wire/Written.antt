-- ===== src/Session/Wire/Written.antt =====
-- What a session has written on its transport after any run of events.
use istream.Prelude.{
  ℕ, ◌+◌, ◌≤◌, String, Bool, true, Option, ◌≡◌, refl, List, [], ◌∷◌, arith, length, All,
}
use istream.Prelude.Texts.{byte_length}
use istream.Platform.{Platform}
use istream.Protocol.{maximum_frame_bytes}
use istream.Values.{Json}
use istream.Transport as T
use istream.Transport.{Transport, open_transport}
use istream.Handshake.{DeviceIdentity}
use istream.Trust.{Store}
use istream.Session.State.{Session, Env, new_session}
use istream.Session.Events.{Event, run}
use istream.Session.Wire.{IsKept}
use istream.Session.Wire.Run.{run-Keeps}

-- What a closed transport has written.
record Silent (written : List String) (t : Transport) : Type 0 where
  closed : t.closed ≡ true
  same : t.written ≡ written

send-Silent :
    (p : Platform) (written : List String) (v : Json) (t : Transport)
    → Silent written t
    → Silent written (T.send p v t).1
unfolding T.send
send-Silent p written v t h = ground arith

close-Silent :
    (written : List String) (t : Transport) → Silent written t → Silent written (T.close t)
unfolding T.close
close-Silent written t h = ground arith

Silent-IsKept : (p : Platform) (written : List String) → IsKept p (Silent written)
Silent-IsKept p written = record {
  keeps_send = send-Silent p written;
  keeps_close = close-Silent written;
}

-- Once a session's transport is closed, it stays closed and nothing more is written on it, whatever
-- happens to the session.
pub run-silent :
    (p : Platform) (es : List (Event × Env)) (s : Session)
    → s.transport.closed ≡ true
    → ((run p es s).transport.closed ≡ true)
      × ((run p es s).transport.written ≡ s.transport.written)
run-silent p es s h =
    let v =
      run-Keeps p (Silent s.transport.written) (Silent-IsKept p s.transport.written) es s
        (record { closed = h; same = refl }) in
    (v.closed, v.same)

abbrev pub total_bytes : List String → ℕ
total_bytes [] = 0
total_bytes (frame ∷ frames) = byte_length frame + total_bytes frames

-- The counters that the diagnostics report are those of the frames written, none of them too large.
record Counted (limit : ℕ) (t : Transport) : Type 0 where
  limit_same : t.maximum_frame_bytes ≡ limit
  frames : t.frames_sent ≡ length t.written
  bytes : t.bytes_sent ≡ total_bytes t.written
  sizes : All (λ frame. byte_length frame ≤ limit) t.written

send-Counted :
    (p : Platform) (limit : ℕ) (v : Json) (t : Transport)
    → Counted limit t
    → Counted limit (T.send p v t).1
unfolding T.send
send-Counted p limit v t h = ground arith

close-Counted : (limit : ℕ) (t : Transport) → Counted limit t → Counted limit (T.close t)
unfolding T.close
close-Counted limit t h = ground arith

Counted-IsKept : (p : Platform) (limit : ℕ) → IsKept p (Counted limit)
Counted-IsKept p limit = record {
  keeps_send = send-Counted p limit;
  keeps_close = close-Counted limit;
}

-- In every run of a new session, the counters of frames and bytes sent are those of the frames that
-- were written to the socket, and none of these is longer than the protocol's limit.
pub run-counts :
    (p : Platform) (es : List (Event × Env)) (i : DeviceIdentity) (key address : String)
    (out : Bool) (x : Option String) (store : Store) (now : ℕ)
    → let t = (run p es (new_session i key address out x store now)).transport in
      (t.frames_sent ≡ length t.written)
      × (t.bytes_sent ≡ total_bytes t.written)
      × All (λ frame. byte_length frame ≤ maximum_frame_bytes) t.written
unfolding new_session open_transport
run-counts p es i key address out x store now =
    let s = new_session i key address out x store now in
    let v =
      run-Keeps p (Counted maximum_frame_bytes) (Counted-IsKept p maximum_frame_bytes) es s
        (record { limit_same = refl; frames = refl; bytes = refl; sizes = tt }) in
    (v.frames, v.bytes, v.sizes)
