-- ===== src/Root/Wazn.antt =====
-- The templates of jidhr/pkg/root/pattern.go: shapes over the model root feh, ain, lam.
use wird.Prelude.{Bool, true, false, ◌&&◌, List, [], ◌∷◌, ◌++◌, length, ltb, nat_beq, if◌then◌else◌}
use wird.Text.{Word}
use wird.Text.Letters.{alef, teh, seen, ain, feh, lam, meem, noon, heh, waw}

abbrev pub base_templates : List Word
base_templates =
    (feh ∷ alef ∷ ain ∷ lam ∷ [])
    ∷ (alef ∷ feh ∷ ain ∷ lam ∷ [])
    ∷ (teh ∷ feh ∷ ain ∷ lam ∷ [])
    ∷ (teh ∷ feh ∷ alef ∷ ain ∷ lam ∷ [])
    ∷ (alef ∷ noon ∷ feh ∷ ain ∷ lam ∷ [])
    ∷ (alef ∷ feh ∷ teh ∷ ain ∷ lam ∷ [])
    ∷ (alef ∷ seen ∷ teh ∷ feh ∷ ain ∷ lam ∷ [])
    ∷ (meem ∷ feh ∷ ain ∷ waw ∷ lam ∷ [])
    ∷ (feh ∷ ain ∷ alef ∷ lam ∷ [])
    ∷ (meem ∷ feh ∷ ain ∷ lam ∷ [])
    ∷ (alef ∷ seen ∷ teh ∷ feh ∷ ain ∷ alef ∷ lam ∷ [])
    ∷ (meem ∷ feh ∷ alef ∷ ain ∷ lam ∷ heh ∷ [])
    ∷ []

pub record Template : Type 0 where
  pub shape : Word
  pub doubled : Bool

-- strings.Contains of the two letters ain and lam
unfoldable pub has_ain_lam : Word → Bool
has_ain_lam [] = false
has_ain_lam (r ∷ []) = false
has_ain_lam (r ∷ s ∷ w) =
    let rest = has_ain_lam (s ∷ w) in if nat_beq r ain && nat_beq s lam then true else rest

-- strings.Replace of the first ain and lam by ain alone
unfoldable pub write_once : Word → Word
write_once [] = []
write_once (r ∷ []) = r ∷ []
write_once (r ∷ s ∷ w) =
    let rest = write_once (s ∷ w) in if nat_beq r ain && nat_beq s lam then r ∷ w else r ∷ rest

unfoldable pub add_template : Template → List Template
add_template t = if ltb 3 (length t.shape) then t ∷ [] else []

unfoldable pub expand_templates : List Word → List Template
unfolding add_template has_ain_lam write_once
expand_templates [] = []
expand_templates (s ∷ shapes) =
    let rest = expand_templates shapes in
    add_template (record { shape = s; doubled = false })
    ++ (if has_ain_lam s
        then add_template (record { shape = write_once s; doubled = true })
        else [])
    ++ rest

unfoldable pub templates : List Template
unfolding expand_templates
templates = expand_templates base_templates
