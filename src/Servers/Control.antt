-- ===== src/Servers/Control.antt =====
-- `ControlServer` of src/main/connectivity/ControlServer.ts. An incoming socket is handed on with the
-- address that `SocketAddressNormalizer` makes of its own.
use Prim.Native.Char.{code}
use istream.Prelude.{
  ℕ, ◌+◌, ◌<◌, ◌≤◌, String, Bool, true, false, Option, none, some, ◌==◌, if◌then◌else◌, ◌≡◌, refl,
  arith, Result, ok, thrown, Attempt,
}
use istream.Servers.Ports.{try_ports, rounds, is_thrown, last_port, try_ports-first, try_ports-none}

pub record ControlServer : Type 0 where
  -- Whether there is a server that listens.
  pub server : Bool
  pub port : ℕ

unfoldable pub new_control_server : ControlServer
new_control_server = record { server = false; port = 0 }

-- The text behind a prefix, if the text begins with it.
unfoldable pub behind : String → String → Option String
behind String.[] text = some text
behind (String.◌∷◌ c prefix) String.[] = none
behind (String.◌∷◌ c prefix) (String.◌∷◌ d text) =
    let rest = behind prefix text in if code c == code d then rest else none

unfoldable pub normalize : Option String → String
unfolding behind
normalize none = ""
normalize (some address) = elim (behind "::ffff:" address) [ none ↦ address | some rest ↦ rest ]

module _ (listen : ℕ → Result ℕ) where
  unfoldable pub listen_on_port : ℕ → Attempt ControlServer ℕ
  listen_on_port port s = elim (listen port) [
    | ok bound ↦ (ok bound, record { server = true; port = bound })
    | thrown e ↦ (thrown e, s)
  ]

  -- The outcome of the loop: the bound port is that of the server.
  unfoldable pub bind : Result ℕ → Attempt ControlServer ℕ
  bind (ok bound) s = (ok bound, record { server = true; port = bound })
  bind (thrown e) s = (thrown e, s)

  unfoldable pub start : ℕ → Attempt ControlServer ℕ
  unfolding listen_on_port bind
  start preferred s =
      if s.server
      then (ok s.port, s)
      else if preferred == 0
      then listen_on_port 0 s
      else bind
          (try_ports listen "No local control port is available." (rounds preferred) preferred none)
          s

unfoldable pub stop : ControlServer → ControlServer
stop s = record { server = false; port = 0 }

not_zero : (n : ℕ) → 0 < n → (n == 0) ≡ false
not_zero n h = ground arith

bind-thrown :
    (listen : ℕ → Result ℕ) (r : Result ℕ) (s : ControlServer)
    → is_thrown r ≡ true
    → (is_thrown (bind listen r s).0 ≡ true) × ((bind listen r s).1 ≡ s)
unfolding bind
bind-thrown listen (ok b) s h = absurd (cc h)
bind-thrown listen (thrown e) s h = (refl, refl)

-- A server that does not listen yet takes the first port that it can listen on, from the preferred
-- one, which is not 0, to the tenth behind it or to 65535; and a further start changes nothing.
pub start-first :
    (listen : ℕ → Result ℕ) (preferred k bound : ℕ) (s : ControlServer)
    → s.server ≡ false
    → 0 < preferred
    → preferred + k ≤ last_port preferred
    → ((j : ℕ) → j < k → is_thrown (listen (preferred + j)) ≡ true)
    → listen (preferred + k) ≡ ok bound
    → (start listen preferred s ≡ (ok bound, record { server = true; port = bound }))
      × ((again : ℕ)
          → start listen again (start listen preferred s).1
            ≡ (ok bound, (start listen preferred s).1))
unfolding start bind
start-first listen preferred k bound s off positive within refused taken =
    let found =
      try_ports-first listen "No local control port is available." (rounds preferred) preferred k
        bound none (omega arith) refused taken in
    let started : start listen preferred s ≡ (ok bound, record { server = true; port = bound }) =
      rw (off, not_zero preferred positive, found) refl in
    (started, λ again. rw started refl)

-- If the server cannot listen on any of these ports, the start fails and changes nothing.
pub start-none :
    (listen : ℕ → Result ℕ) (preferred : ℕ) (s : ControlServer)
    → s.server ≡ false
    → 0 < preferred
    → ((j : ℕ) → j < rounds preferred → is_thrown (listen (preferred + j)) ≡ true)
    → (is_thrown (start listen preferred s).0 ≡ true) × ((start listen preferred s).1 ≡ s)
unfolding start bind
start-none listen preferred s off positive refused =
    let failed =
      try_ports-none listen "No local control port is available." (rounds preferred) preferred none
        refused in
    rw (off, not_zero preferred positive)
      (bind-thrown listen _ (record s { server = false }) failed)
