-- ===== src/Prelude/Text.antt =====
-- Go's strings where the code only compares them: the native texts, with equality decided.
use Prim.Native.String.{String}
use mathlib.Core.Path.{◌≡◌, refl}
use mathlib.Core.Logic.{◌↔◌, ◌≢◌}
use mathlib.Core.Bool.{Bool, true, false}
use text.Mathlib.Text.{◌==◌}
use text.Mathlib.TextEquality.{eq_iff}

decide_by : (b : Bool) {s t : String} → ((b ≡ true) ↔ (s ≡ t)) → Dec (s ≡ t)
decide_by true h = yes (h.0 refl)
decide_by false h = no (λ e. cc (h.1 e))

unfoldable pub String-discrete : Discrete String
unfolding decide_by
String-discrete s t = decide_by (s == t) (eq_iff s t)

-- Texts that the test tells apart are different.
pub String-ne : (s t : String) → (s == t) ≡ false → s ≢ t
String-ne s t h e = cc (h, (eq_iff s t).1 e)
