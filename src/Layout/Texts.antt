-- ===== src/Layout/Texts.antt =====
-- The order of texts in Python: `<=` on `str`, by the code points of the characters.
use Prim.Native.Char.{code}
use ch_backup.Prelude.{String, Bool, true, false, ◌≡◌, refl, ltb, eqb, if◌then◌else◌, arith}

unfoldable pub leb_text : String → String → Bool
leb_text String.[] t = true
leb_text (String.◌∷◌ c s) String.[] = false
leb_text (String.◌∷◌ c s) (String.◌∷◌ d t) =
    let rest = leb_text s t in if eqb (code c) (code d) then rest else ltb (code c) (code d)

pub leb_text_refl : (s : String) → leb_text s s ≡ true
unfolding leb_text
leb_text_refl String.[] = refl
leb_text_refl (String.◌∷◌ c s) = ground (arith, leb_text_refl s)

pub leb_text_trans :
    (s t u : String) → leb_text s t ≡ true → leb_text t u ≡ true → leb_text s u ≡ true
unfolding leb_text
leb_text_trans String.[] t u h k = refl
leb_text_trans (String.◌∷◌ c s) String.[] u h k = absurd (ground (arith, h))
leb_text_trans (String.◌∷◌ c s) (String.◌∷◌ d t) String.[] h k = absurd (ground (arith, k))
leb_text_trans (String.◌∷◌ c s) (String.◌∷◌ d t) (String.◌∷◌ e u) h k =
    ground (arith, h, k, leb_text_trans s t u)

pub leb_text_total : (s t : String) → leb_text s t ≡ false → leb_text t s ≡ true
unfolding leb_text
leb_text_total String.[] t h = absurd (ground (arith, h))
leb_text_total (String.◌∷◌ c s) String.[] h = refl
leb_text_total (String.◌∷◌ c s) (String.◌∷◌ d t) h = ground (arith, h, leb_text_total s t)
