-- ===== src/Plugin/Manifest/Checks.antt =====
-- Checks that find nothing to refuse.
use blindfold.Prelude.{◌≡◌, refl, Bool, true, false, not, ◌||◌, Option, none, some}
use blindfold.Plugin.Manifest.{ManifestError, refuse, first_error}

pub refuse-none : (b : Bool) (e : ManifestError) → refuse b e ≡ none → b ≡ false
refuse-none true e h = cc
refuse-none false e h = refl

pub first_error-none :
    (a b : Option ManifestError) → first_error a b ≡ none → (a ≡ none) × (b ≡ none)
first_error-none none b h = (refl, h)
first_error-none (some e) b h = cc

pub not-false : (b : Bool) → not b ≡ false → b ≡ true
not-false true h = refl
not-false false h = cc

pub ||_false : (a b : Bool) → (a || b) ≡ false → (a ≡ false) × (b ≡ false)
||_false true b h = cc
||_false false b h = (refl, h)
