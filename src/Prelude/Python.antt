-- ===== src/Prelude/Python.antt =====
-- What the program takes from Python's standard library to render and hash values. The hash of a
-- JSON value is that of `json.dumps(value, sort_keys=True, separators=(",", ":"))`.
use Prim.Native.Nat.{ℕ}
use Prim.Native.String.{String, ◌++◌}
use mathlib.Core.List.{List, [], ◌∷◌}
use tally_agentic_memory.Prelude.Int.{ℤ}
use tally_agentic_memory.Prelude.Json.{Json}

pub record Python : Type 0 where
  pub fixed2 : ℤ → String  -- f"{n / 100:.2f}"
  pub decimal : ℤ → String  -- f"{n}"
  pub isoformat : ℕ → String  -- d.isoformat() of a date, given by its ordinal
  pub isoformat_time : ℕ → String  -- t.isoformat() of a time in microseconds
  pub prefix : ℕ → String → String  -- s[:n]
  pub sha256_json : Json → String  -- hexadecimal
  pub canonical_json : Json → String  -- json.dumps, sorted, compact, ensure_ascii=False
  pub sha256_hex : String → String  -- of the text's UTF-8 bytes, hexadecimal

-- An f-string, by its parts.
abbrev pub concat : List String → String
concat [] = ""
concat (s ∷ rest) = s ++ concat rest

-- `prefixed_sha256(canonical_json_bytes(value))` of src/core/receipt.py
abbrev pub prefixed_digest : Python → Json → String
prefixed_digest python value = "sha256:" ++ python.sha256_hex (python.canonical_json value)
