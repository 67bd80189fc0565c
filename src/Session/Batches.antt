-- ===== src/Session/Batches.antt =====
-- The diagnostics of the peer: the batches that `handleDiagnosticsRequest` sends, and what the
-- peer's `handleDiagnosticsBatch` makes of them.
pub mod Cut
use istream.Prelude.{
  ℕ, zero, suc, String, Bool, true, false, ◌≤◌, ◌<◌, ◌+◌, none, some, List, [], ◌∷◌, ◌++◌, length,
  take, drop, leb, ◌≡◌, refl, ap, sym, ◌∙◌, ok, arith, if◌then◌else◌, Attempt, pure, ◌>>=◌,
  Bool-cases, inl, inr, leb→le, length-drop, length-take, length-append, take-append-drop,
  >>=-split, subst, >>=-ok, Result,
}
use istream.Prelude.Maps.{lookup, insert, lookup-insert, lookup-remove}
use package.text.Mathlib.TextPositions.{eq_refl}
use mathlib.Core.List.{append_assoc, append-nil}
use istream.Contracts.Diagnostics.{DiagnosticRecord}
use istream.Platform.{Platform}
use istream.Protocol as P
use istream.Session.State.{Session, Env, Effect, sent, resolved}
use istream.Session.Closing.{send_secure}
use istream.Session.Reversal.{handle_diagnostics_batch, batches_of, send_batches}
use istream.Session.Batches.Cut.{
  Batch, at_most_ten, cut, cut_all, cut-few, cut-many, at_most_ten-cut_all,
}

-- The batches among what a session sent, the first batch first.
abbrev pub batches_sent : List Effect → List Batch
batches_sent [] = []
batches_sent (sent (P.diagnostics_batch id rs complete) ∷ es) =
    batches_sent es ++ (rs, complete) ∷ []
batches_sent (_ ∷ es) = batches_sent es

-- The peer handles batches one after the other.
abbrev pub receive_batches : Platform → Env → String → List Batch → Attempt Session (Unit {0})
receive_batches p env id [] = pure tt
receive_batches p env id ((rs, complete) ∷ more) =
    handle_diagnostics_batch p env id rs complete >>= λ _. receive_batches p env id more

module _ (p : Platform) (env : Env) (id : String) where
  sent_secure :
      (m : P.SecureMessage) (s : Session)
      → (send_secure p m s).0 ≡ ok tt
      → (send_secure p m s).1.effects ≡ sent m ∷ s.effects
  unfolding send_secure
  sent_secure m s h = ground arith

  send_batches-cut :
      (f : ℕ) (rs : List DiagnosticRecord) (s : Session)
      → (send_batches p env f id rs s).0 ≡ ok tt
      → batches_sent (send_batches p env f id rs s).1.effects ≡ batches_sent s.effects ++ cut f rs
  unfolding send_batches
  send_batches-cut zero rs s h = sym (append-nil _)
  send_batches-cut (suc f) [] s h = sym (append-nil _)
  send_batches-cut (suc f) (r ∷ rs) s h =
      let m = P.diagnostics_batch id (take 10 (r ∷ rs)) (leb (length (r ∷ rs)) 10) in
      let rest = drop 10 (r ∷ rs) in
      let (u, first, eq) = >>=-split (send_secure p m) (λ _. send_batches p env f id rest) s h in
      let t = (send_secure p m s).1 in
      ap (λ x. batches_sent x.1.effects) eq
      ∙ send_batches-cut f rest t (sym (ap (λ x. x.0) eq) ∙ h)
      ∙ ap (λ es. batches_sent es ++ cut f rest) (sent_secure m s first)
      ∙ append_assoc (batches_sent s.effects) _ (cut f rest)

  -- A batch that is not the last one, and the last one.
  receive-more :
      (limit : ℕ) (done rs : List DiagnosticRecord) (s : Session)
      → lookup id s.pending_diagnostic_requests ≡ some (record { limit = limit; records = done })
      → length done + length rs ≤ limit
      → ((handle_diagnostics_batch p env id rs false s).0 ≡ ok tt)
        × ((handle_diagnostics_batch p env id rs false s).1.effects ≡ s.effects)
        × (lookup id (handle_diagnostics_batch p env id rs false s).1.pending_diagnostic_requests
            ≡ some (record { limit = limit; records = done ++ rs }))
  unfolding handle_diagnostics_batch
  receive-more limit done rs s e h = ground (
    arith,
    e,
    length-append done rs,
    eq_refl id,
    lookup-insert id id (record { limit = limit; records = done ++ rs })
        s.pending_diagnostic_requests,
  )

  receive-last :
      (limit : ℕ) (done rs : List DiagnosticRecord) (s : Session)
      → lookup id s.pending_diagnostic_requests ≡ some (record { limit = limit; records = done })
      → length done + length rs ≤ limit
      → ((handle_diagnostics_batch p env id rs true s).0 ≡ ok tt)
        × ((handle_diagnostics_batch p env id rs true s).1.effects
            ≡ resolved id (done ++ rs) ∷ s.effects)
        × (lookup id (handle_diagnostics_batch p env id rs true s).1.pending_diagnostic_requests
            ≡ none)
  unfolding handle_diagnostics_batch
  receive-last limit done rs s e h = ground (
    arith,
    e,
    length-append done rs,
    eq_refl id,
    lookup-remove id id
        (insert id (record { limit = limit; records = done ++ rs }) s.pending_diagnostic_requests),
  )

  -- All batches arrived: the request has its records and is gone.
  abbrev pub Resolved : List DiagnosticRecord → Session → Result (Unit {0}) × Session → Type 0
  Resolved all s x =
      (x.0 ≡ ok tt)
      × (x.1.effects ≡ resolved id all ∷ s.effects)
      × (lookup id x.1.pending_diagnostic_requests ≡ none)

  receive-only :
      (limit : ℕ) (done rs : List DiagnosticRecord) (s : Session)
      → lookup id s.pending_diagnostic_requests ≡ some (record { limit = limit; records = done })
      → length done + length rs ≤ limit
      → Resolved (done ++ rs) s (receive_batches p env id ((rs, true) ∷ []) s)
  receive-only limit done rs s e h =
      let last = receive-last limit done rs s e h in
      subst (Resolved (done ++ rs) s)
        (sym (>>=-ok (handle_diagnostics_batch p env id rs true) (λ _. pure tt) s tt last.0))
        (refl, last.1, last.2)

  -- The rest of the batches, with `done` received before.
  receive-cut :
      (f : ℕ) (limit : ℕ) (done rs : List DiagnosticRecord) (s : Session)
      → lookup id s.pending_diagnostic_requests ≡ some (record { limit = limit; records = done })
      → length done + length rs ≤ limit
      → length rs ≤ f
      → 0 < length rs
      → Resolved (done ++ rs) s (receive_batches p env id (cut f rs) s)
  receive-cut zero limit done rs s e h k l = absurd (omega arith)
  receive-cut (suc f) limit done [] s e h k l = absurd (omega arith)
  receive-cut (suc f) limit done (r ∷ rs) s e h k l = elim (Bool-cases (leb (length (r ∷ rs)) 10)) [
    | inl few ↦
        subst (λ bs. Resolved (done ++ r ∷ rs) s (receive_batches p env id bs s))
          (sym (cut-few f r rs (leb→le _ _ few))) (receive-only limit done (r ∷ rs) s e h)
    | inr many ↦
        subst (λ bs. Resolved (done ++ r ∷ rs) s (receive_batches p env id bs s))
          (sym (cut-many f r rs many))
          (let first = take 10 (r ∷ rs) in
            let rest = drop 10 (r ∷ rs) in
            let split = take-append-drop 10 (r ∷ rs) in
            let taken = length-take 10 (r ∷ rs) in
            let dropped = length-drop 10 (r ∷ rs) in
            let more = receive-more limit done first s e (ground (arith, taken, many)) in
            let t = (handle_diagnostics_batch p env id first false s).1 in
            let ih =
              receive-cut f limit (done ++ first) rest t more.2
                (ground (arith, taken, dropped, many, length-append done first))
                (ground (arith, dropped, many)) (ground (arith, dropped, many)) in
            subst (Resolved (done ++ r ∷ rs) s)
              (sym (
                >>=-ok (handle_diagnostics_batch p env id first false)
                  (λ _. receive_batches p env id (cut f rest)) s tt more.0))
              (
                ih.0,
                ih.1
                    ∙ ap (λ es. resolved id (done ++ first ++ rest) ∷ es) more.1
                    ∙ ap (λ xs. resolved id xs ∷ s.effects)
                        (append_assoc done first rest ∙ ap (λ xs. done ++ xs) split),
                ih.2,
              ))
  ]

  batches_of-cut :
      (rs : List DiagnosticRecord) (s : Session)
      → (batches_of p env id rs s).0 ≡ ok tt
      → batches_sent (batches_of p env id rs s).1.effects ≡ batches_sent s.effects ++ cut_all rs
  unfolding batches_of
  batches_of-cut [] s h = ap batches_sent (sent_secure (P.diagnostics_batch id [] true) s h)
  batches_of-cut (r ∷ rs) s h = send_batches-cut (length (r ∷ rs)) (r ∷ rs) s h

  receive-cut_all :
      (limit : ℕ) (rs : List DiagnosticRecord) (s : Session)
      → lookup id s.pending_diagnostic_requests ≡ some (record { limit = limit; records = [] })
      → length rs ≤ limit
      → Resolved rs s (receive_batches p env id (cut_all rs) s)
  receive-cut_all limit [] s e h = receive-only limit [] [] s e (omega arith)
  receive-cut_all limit (r ∷ rs) s e h =
      receive-cut (length (r ∷ rs)) limit [] (r ∷ rs) s e (omega arith) (omega arith) (omega arith)

-- When a session that has sent no batch before could send all batches of an answer, none of them has
-- more than ten records, and a session that handles them in order, with a new request open for at
-- least so many records, succeeds, resolves the request once with exactly the answer's records in
-- their order, and forgets the request.
pub receive_batches-batches_of :
    (p q : Platform) (here there : Env) (id : String) (limit : ℕ) (rs : List DiagnosticRecord)
    (a b : Session)
    → batches_sent b.effects ≡ []
    → (batches_of q there id rs b).0 ≡ ok tt
    → lookup id a.pending_diagnostic_requests ≡ some (record { limit = limit; records = [] })
    → length rs ≤ limit
    → (at_most_ten (batches_sent (batches_of q there id rs b).1.effects) ≡ true)
      × Resolved p here id rs a
          (receive_batches p here id (batches_sent (batches_of q there id rs b).1.effects) a)
receive_batches-batches_of p q here there id limit rs a b none_before all_sent open_ few =
    let cuts = batches_of-cut q there id rs b all_sent ∙ ap (λ bs. bs ++ cut_all rs) none_before in
    (
      ap at_most_ten cuts ∙ at_most_ten-cut_all rs,
      subst (λ bs. Resolved p here id rs a (receive_batches p here id bs a)) (sym cuts)
          (receive-cut_all p here id limit rs a open_ few),
    )
