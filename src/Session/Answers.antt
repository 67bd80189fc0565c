-- ===== src/Session/Answers.antt =====
-- What an answer of the user needs: `respondToPrompt`.
use istream.Prelude.{String, true, false, Option, some, ◌≡◌, ok, arith, str_eq}
use istream.Contracts.Connectivity.{ConsentPromptDescriptor}
use istream.Platform.{Platform}
use istream.Session.State.{Session, Env}
use istream.Session.Establish.{respond_to_prompt, answer, code_matches, is_entering, is_reversal}

-- If accepting the answer to a prompt that asks for the verification code, and is none for a
-- reversal, succeeds, the text that was entered matches the session's code, and the answer names the
-- prompt that is shown.
pub respond_to_prompt-code :
    (p : Platform) (env : Env) (id : String) (entered : Option String) (q : ConsentPromptDescriptor)
    (s : Session)
    → s.prompt ≡ some q
    → is_entering q.mode ≡ true
    → is_reversal q.kind ≡ false
    → (respond_to_prompt p env id true entered s).0 ≡ ok tt
    → (code_matches s.verification_code entered ≡ true) × (str_eq q.prompt_id id ≡ true)
unfolding respond_to_prompt answer
respond_to_prompt-code p env id entered q s e enters pairs h = ground arith

-- Accepting a prompt that asks for the code, and is none for a reversal, with a text that does not match
-- the session's code, changes nothing of the session, whatever prompt the answer names.
pub respond_to_prompt-refused :
    (p : Platform) (env : Env) (id : String) (entered : Option String) (q : ConsentPromptDescriptor)
    (s : Session)
    → s.prompt ≡ some q
    → is_entering q.mode ≡ true
    → is_reversal q.kind ≡ false
    → code_matches s.verification_code entered ≡ false
    → (respond_to_prompt p env id true entered s).1 ≡ s
unfolding respond_to_prompt answer
respond_to_prompt-refused p env id entered q s e enters pairs h = ground arith
