-- ===== src/Prelude/Maps.antt =====
-- Maps with text keys as functions: Redis keys and Python dictionaries with a default.
use Prim.Native.String.{String}
use mathlib.Core.Path.{◌≡◌}
use text.Mathlib.TextPositions.{eq_refl}
use cs_server.Prelude.Tests.{str_eq, if◌then◌else◌}

module _ {ℓ} {V : Type ℓ} where
  abbrev pub update : (String → V) → String → V → String → V
  update f k v j = if str_eq k j then v else f j

  pub update_self : (f : String → V) (k : String) (v : V) → update f k v k ≡ v
  update_self f k v = simp eq_refl
