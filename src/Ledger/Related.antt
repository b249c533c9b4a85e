-- ===== src/Ledger/Related.antt =====
-- The other wallet of a transfer, as the ledger reads it from a description.
use Prim.Native.Char.{code}
use Prim.Native.String.{◌++◌ as text_append}
use Prim.Native.String.append
use wallex_sanbox.Prelude.{◌≡◌, String, Bool, true, false, ◌==◌, if◌then◌else◌}
use wallex_sanbox.Ledger.Projection.{is_line_end}

-- A text on one line.
abbrev pub IsLine : String → Type 0
IsLine String.[] = Unit
IsLine (String.◌∷◌ c s) = (is_line_end (code c) ≡ false) × IsLine s

-- Two texts with a place where they differ.
differ : String → String → Bool
differ String.[] q = false
differ (String.◌∷◌ c p) String.[] = false
differ (String.◌∷◌ c p) (String.◌∷◌ d q) =
    let rest = differ p q in if code c == code d then rest else true
