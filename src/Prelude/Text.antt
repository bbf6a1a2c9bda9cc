-- ===== src/Prelude/Text.antt =====
-- Strings: the tests and the concatenation that the program uses, and decimal numbers (`%d`).
use text.Mathlib.Text.{◌==◌ as str_eq, find?}
use text.Mathlib.TextEquality.{eq_iff}
use mathlib.Core.Path.{◌≡◌}
use mathlib.Core.Logic.{◌↔◌}
use Prim.Native.Nat.{ℕ, zero, suc, ◌/◌, ◌%◌}
use Prim.Native.String as Strings
use Prim.Native.String.{String}
use mathlib.Core.Bool.{Bool, true, false}
use mathlib.Core.Option.{Option, none, some}
use mathlib.Core.List.{[], ◌∷◌}
use uptime_monitor.Prelude.Tests.{if◌then◌else◌, ltb}
use uptime_monitor.Prelude.Lists.{get_or}
use uptime_monitor.Prelude.Int.{ℤ, pos, negsuc}
pub use Prim.Native.String.{String, len}
pub use text.Mathlib.Text.{starts_with}

infixr 60 ◌<+>◌
abbrev pub ◌<+>◌ : String → String → String
s <+> t = Strings.◌++◌ s t

-- `s == ""`.
abbrev pub is_blank : String → Bool
is_blank s = str_eq s ""

abbrev pub same_text : String → String → Bool
same_text s t = str_eq s t

pub same_text_iff : (s t : String) → (same_text s t ≡ true) ↔ (s ≡ t)
same_text_iff s t = eq_iff s t

abbrev is_found : Option ℕ → Bool
is_found none = false
is_found (some n) = true

-- `strings.Contains(s, t)`.
abbrev pub contains : String → String → Bool
contains s t = is_found (find? s t)

digit : ℕ → String
digit d = get_or ("0" ∷ "1" ∷ "2" ∷ "3" ∷ "4" ∷ "5" ∷ "6" ∷ "7" ∷ "8" ∷ "9" ∷ []) d "0"

digits : ℕ → ℕ → String
digits zero n = ""
digits (suc fuel) n =
    let rest = digits fuel (n / 10) in if ltb n 10 then digit n else rest <+> digit (n % 10)

-- `strconv.Itoa`; a number has no more digits than its successor counts.
pub itoa : ℤ → String
itoa (pos n) = digits (suc n) n
itoa (negsuc n) = "-" <+> digits (suc (suc n)) (suc n)
