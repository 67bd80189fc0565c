-- ===== src/Session/Batches/Cut.antt =====
-- How `handleDiagnosticsRequest` cuts the records of an answer into batches, without a session.
use istream.Prelude.{
  ℕ, zero, suc, Bool, true, false, ◌≤◌, List, [], ◌∷◌, length, take, drop, leb, ◌≡◌, refl, ap,
  arith, if◌then◌else◌, length-take,
}
use istream.Contracts.Diagnostics.{DiagnosticRecord}

-- A batch: its records, and whether it is the last one.
abbrev pub Batch : Type 0
Batch = List DiagnosticRecord × Bool

abbrev pub at_most_ten : List Batch → Bool
at_most_ten [] = true
at_most_ten ((rs, complete) ∷ more) = if leb (length rs) 10 then at_most_ten more else false

-- The same batches without a session.
abbrev pub cut : ℕ → List DiagnosticRecord → List Batch
cut zero rs = []
cut (suc f) [] = []
cut (suc f) (r ∷ rs) = (take 10 (r ∷ rs), leb (length (r ∷ rs)) 10) ∷ cut f (drop 10 (r ∷ rs))

abbrev pub cut_all : List DiagnosticRecord → List Batch
cut_all [] = ([], true) ∷ []
cut_all (r ∷ rs) = cut (length (r ∷ rs)) (r ∷ rs)

at_most_ten-cut : (f : ℕ) (rs : List DiagnosticRecord) → at_most_ten (cut f rs) ≡ true
at_most_ten-cut zero rs = refl
at_most_ten-cut (suc f) [] = refl
at_most_ten-cut (suc f) (r ∷ rs) =
    ground (arith, at_most_ten-cut f (drop 10 (r ∷ rs)), length-take 10 (r ∷ rs))

take-all : (n : ℕ) (rs : List DiagnosticRecord) → length rs ≤ n → take n rs ≡ rs
take-all zero [] h = refl
take-all zero (r ∷ rs) h = absurd (omega arith)
take-all (suc n) [] h = refl
take-all (suc n) (r ∷ rs) h = ap (◌∷◌ r) (take-all n rs (omega arith))

drop-all : (n : ℕ) (rs : List DiagnosticRecord) → length rs ≤ n → drop n rs ≡ []
drop-all zero [] h = refl
drop-all zero (r ∷ rs) h = absurd (omega arith)
drop-all (suc n) [] h = refl
drop-all (suc n) (r ∷ rs) h = drop-all n rs (omega arith)

cut-nil : (f : ℕ) → cut f [] ≡ []
cut-nil zero = refl
cut-nil (suc f) = refl

pub cut-few :
    (f : ℕ) (r : DiagnosticRecord) (rs : List DiagnosticRecord)
    → length (r ∷ rs) ≤ 10
    → cut (suc f) (r ∷ rs) ≡ (r ∷ rs, true) ∷ []
cut-few f r rs h = ground (arith, take-all 10 (r ∷ rs) h, drop-all 10 (r ∷ rs) h, cut-nil f)

pub cut-many :
    (f : ℕ) (r : DiagnosticRecord) (rs : List DiagnosticRecord)
    → leb (length (r ∷ rs)) 10 ≡ false
    → cut (suc f) (r ∷ rs) ≡ (take 10 (r ∷ rs), false) ∷ cut f (drop 10 (r ∷ rs))
cut-many f r rs h = ap (λ b. (take 10 (r ∷ rs), b) ∷ cut f (drop 10 (r ∷ rs))) h

pub at_most_ten-cut_all : (rs : List DiagnosticRecord) → at_most_ten (cut_all rs) ≡ true
at_most_ten-cut_all [] = refl
at_most_ten-cut_all (r ∷ rs) = at_most_ten-cut (length (r ∷ rs)) (r ∷ rs)
