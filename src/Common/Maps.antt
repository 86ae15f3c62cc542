-- ===== src/Common/Maps.antt =====
-- Go's maps with text keys, as lists of entries with distinct keys.
use omni_logging.Common.Tests.{if◌then◌else◌}
use omni_logging.Common.Texts.{Text, same}
use mathlib.Core.Option.{Option, none, some}
use mathlib.Core.List.{List, [], ◌∷◌}

module _ {ℓ} {A : Type ℓ} where
  -- m[k]
  unfoldable pub get_entry : Text → List (Text × A) → Option A
  unfolding same
  get_entry k [] = none
  get_entry k ((j, x) ∷ m) = if same j k then some x else get_entry k m

  -- m[k] = x
  unfoldable pub set_entry : Text → A → List (Text × A) → List (Text × A)
  unfolding same
  set_entry k x [] = (k, x) ∷ []
  set_entry k x ((j, y) ∷ m) = if same j k then (j, x) ∷ m else (j, y) ∷ set_entry k x m

  -- for k, x := range xs { m[k] = x }
  unfoldable pub set_entries : List (Text × A) → List (Text × A) → List (Text × A)
  unfolding set_entry
  set_entries [] m = m
  set_entries ((k, x) ∷ xs) m = set_entries xs (set_entry k x m)
