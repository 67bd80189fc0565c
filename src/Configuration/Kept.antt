-- ===== src/Configuration/Kept.antt =====
-- Of `StreamConfigurationService` in src/main/configuration/StreamConfigurationService.ts: the
-- settings in use, and what a load makes of what an update wrote.
use istream.Prelude.{String, true, ◌≡◌, refl, ap, some, Result, ok, thrown}
use istream.Values.{Json, object, Fields}
use istream.Configuration.{
  ConfigurationService, Engine, adopt, load, load_text, hold, settle, update,
}
use istream.Configuration.Validator.{validate}
use istream.Contracts.Diagnostics.{Number, int}
use istream.Prelude.Decimals.{to_decimal}
use istream.Configuration.Accepted.{validate-validate}

printed_int : Number → String
printed_int (int n) = to_decimal n
printed_int _ = ""

module _ (e : Engine) where
  hold-ok :
      (r : Result Fields) (c : Fields) (s : ConfigurationService)
      → (hold e true r s).0 ≡ ok c
      → (r ≡ ok c) × ((hold e true r s).1.file ≡ some (e.stringify (object c)))
  unfolding hold
  hold-ok (ok d) c s h = (h, ap (λ f. some (e.stringify (object f))) (cc h))
  hold-ok (thrown x) c s h = absurd (cc h)

  -- After an update that the file system takes, any service that loads the file has exactly the
  -- configuration that the update returned, provided that `JSON.parse` reads it back.
  pub load-update :
      (v : Json) (c : Fields) (s t : ConfigurationService)
      → (update e true v s).0 ≡ ok c
      → e.parse (e.stringify (object c)) ≡ ok (object c)
      → (load e (record t { file = (update e true v s).1.file })).1.configuration ≡ c
  unfolding update load load_text adopt settle
  load-update v c s t h reads =
      let (valid, stored) = hold-ok (validate e.print e.half_up v) c s h in
      rw (stored, load_text, reads, validate-validate e.print e.half_up v c valid) refl
