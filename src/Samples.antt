-- ===== src/Samples.antt =====
-- Values for the tests of every part: a stand-in for the parts of Python's library that are not
-- modelled.
use Prim.Native.String.{◌∷◌}
use tally_agentic_memory.Prelude.{ℕ, zero, suc, String, ◌≡◌, refl, ap}
use tally_agentic_memory.Prelude.Python.{Python}
use text.Mathlib.TextLemmas.{tail-eq_of_cons-eq}

-- A number in unary.
abbrev pub marks : ℕ → String
marks zero = ""
marks (suc n) = "i" ∷ marks n

pub marks-injective : (m n : ℕ) → marks m ≡ marks n → m ≡ n
marks-injective zero zero h = refl
marks-injective zero (suc n) h = cc
marks-injective (suc m) zero h = cc
marks-injective (suc m) (suc n) h = ap suc (marks-injective m n (tail-eq_of_cons-eq h))

abbrev pub plain : Python
plain = record {
  fixed2 = λ n. "0.00";
  decimal = λ n. "0";
  isoformat = marks;
  isoformat_time = marks;
  prefix = λ n s. s;
  sha256_json = λ j. "hash";
  canonical_json = λ j. "{}";
  sha256_hex = λ s. "hash";
}
