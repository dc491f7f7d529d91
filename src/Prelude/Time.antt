-- ===== src/Prelude/Time.antt =====
-- Python's `datetime` and `date`. A date is its proleptic ordinal. An aware datetime is its wall
-- clock, in microseconds since ordinal 0, and its offset east of UTC with 24 hours added, so that
-- both are numbers; a valid offset is below 48 hours there.
use Prim.Native.Nat.{ℕ, ◌+◌, ◌-◌, ◌*◌, ◌/◌}
use Prim.Native.String.{String}
use mathlib.Core.Path.{◌≡◌, refl}
use mathlib.Core.Bool.{Bool, true, false, ◌&&◌, ◌||◌}
use mathlib.Core.Option.{Option}
use mathlib.Core.List.{List, [], ◌∷◌}
use native.Mathlib.Omega.{arith}
use tally_agentic_memory.Prelude.Tests.{ltb, ◌==◌}
use tally_agentic_memory.Prelude.Text.{codes}

abbrev pub day_micros : ℕ
day_micros = 86400000000

pub record Datetime : Type 0 where
  pub wall : ℕ
  pub east : ℕ

-- Microseconds UTC: the wall clock less the offset. (48 hours are added and the offset has 24.)
abbrev pub instant : Datetime → ℕ
instant t = t.wall + 2 * day_micros - t.east

-- `t.date()`
abbrev pub date_of : Datetime → ℕ
date_of t = t.wall / day_micros

-- `s.isoformat() == t.isoformat()`: the text shows the wall clock and the offset.
abbrev pub same_isoformat : Datetime → Datetime → Bool
same_isoformat s t = s.wall == t.wall && s.east == t.east

pub data Parsed : Type 0 where
  naive : Parsed
  aware : Datetime → Parsed

-- `datetime.fromisoformat` and `date.fromisoformat` (`none` is a `ValueError`), and
-- `t.astimezone(ZoneInfo(name)).date()`, which reads the time zone database.
pub record Calendar : Type 0 where
  pub datetime_fromisoformat : String → Option Parsed
  pub date_fromisoformat : String → Option ℕ
  pub date_in_zone : String → Datetime → ℕ

-- Comparison of texts by code points, `s <= t`.
abbrev pub codes_le : List ℕ → List ℕ → Bool
codes_le [] t = true
codes_le (c ∷ s) [] = false
codes_le (c ∷ s) (d ∷ t) = ltb c d || c == d && codes_le s t

pub codes_le_total : (s t : List ℕ) → codes_le s t ≡ false → codes_le t s ≡ true
codes_le_total [] t h = absurd (ground arith)
codes_le_total (c ∷ s) [] h = refl
codes_le_total (c ∷ s) (d ∷ t) h = ground (arith, codes_le_total s t)

pub codes_le_trans :
    (s t u : List ℕ) → codes_le s t ≡ true → codes_le t u ≡ true → codes_le s u ≡ true
codes_le_trans [] t u h k = refl
codes_le_trans (c ∷ s) [] u h k = absurd (ground arith)
codes_le_trans (c ∷ s) (d ∷ t) [] h k = absurd (ground arith)
codes_le_trans (c ∷ s) (d ∷ t) (e ∷ u) h k = ground (arith, codes_le_trans s t u)

-- `xs.sort(key=lambda x: (time, ref))`, as the test "comes no later".
abbrev pub key_le : Datetime → String → Datetime → String → Bool
key_le s a t b =
    ltb (instant s) (instant t) || instant s == instant t && codes_le (codes a) (codes b)
