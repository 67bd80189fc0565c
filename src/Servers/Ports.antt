-- ===== src/Servers/Ports.antt =====
-- The loop of both servers over the ports from the preferred one on. `listen` is what the operating
-- system answers for a port: the port that is bound, or the message of the error.
use istream.Prelude.{
  ℕ, zero, suc, ◌+◌, ◌-◌, ◌<◌, min, String, Bool, true, false, Option, some, ◌≡◌, refl, ap, sym,
  subst, ◌∙◌, arith, Result, ok, thrown, or_else,
}

-- `Math.min(65_535, preferredPort + 10)`
abbrev pub last_port : ℕ → ℕ
last_port preferred = min 65535 (preferred + 10)

-- The number of rounds of the loop.
abbrev pub rounds : ℕ → ℕ
rounds preferred = suc (last_port preferred) - preferred

abbrev pub is_thrown {ℓ} : {A : Type ℓ} → Result A → Bool
is_thrown (ok a) = false
is_thrown (thrown e) = true

add-zero : (n : ℕ) → n + 0 ≡ n
add-zero n = omega arith

add-suc : (n j : ℕ) → n + suc j ≡ suc n + j
add-suc n j = omega arith

refusal : {A : Type 0} (r : Result A) → is_thrown r ≡ true → (e : String) × (r ≡ thrown e)
refusal (ok a) h = absurd (cc h)
refusal (thrown e) h = (e, refl)

module _ (listen : ℕ → Result ℕ) (fallback : String) where
  unfoldable pub try_ports : ℕ → ℕ → Option String → Result ℕ
  try_ports zero port last_error = thrown (or_else last_error fallback)
  try_ports (suc n) port last_error = elim (listen port) [
    | ok bound ↦ ok bound
    | thrown e ↦ try_ports n (suc port) (some e)
  ]

  -- The first port that can be listened on is taken.
  pub try_ports-first :
      (n port k bound : ℕ) (last_error : Option String)
      → k < n
      → ((j : ℕ) → j < k → is_thrown (listen (port + j)) ≡ true)
      → listen (port + k) ≡ ok bound
      → try_ports n port last_error ≡ ok bound
  unfolding try_ports
  try_ports-first zero port k bound last_error h refused taken = elim h [ ]
  try_ports-first (suc n) port zero bound last_error h refused taken =
      let here : listen port ≡ ok bound = ap listen (sym (add-zero port)) ∙ taken in
      rw (try_ports, here) refl
  try_ports-first (suc n) port (suc k) bound last_error h refused taken =
      let (e, gone) =
        refusal (listen port)
          (subst (λ q. is_thrown (listen q) ≡ true) (add-zero port) (refused 0 (omega arith))) in
      rw (try_ports, gone)
        (try_ports-first n (suc port) k bound (some e) (omega arith)
          (λ j l.
            subst (λ q. is_thrown (listen q) ≡ true) (add-suc port j)
              (refused (suc j) (omega arith)))
          (subst (λ q. listen q ≡ ok bound) (add-suc port k) taken))

  -- If every port is refused, so is the whole.
  pub try_ports-none :
      (n port : ℕ) (last_error : Option String)
      → ((j : ℕ) → j < n → is_thrown (listen (port + j)) ≡ true)
      → is_thrown (try_ports n port last_error) ≡ true
  unfolding try_ports
  try_ports-none zero port last_error refused = refl
  try_ports-none (suc n) port last_error refused =
      let (e, gone) =
        refusal (listen port)
          (subst (λ q. is_thrown (listen q) ≡ true) (add-zero port) (refused 0 (omega arith))) in
      rw (try_ports, gone)
        (try_ports-none n (suc port) (some e) (λ j l.
          subst (λ q. is_thrown (listen q) ≡ true) (add-suc port j)
            (refused (suc j) (omega arith))))
