-- ===== src/Examples/Settings.antt =====
-- The theorems on the configuration, applied.
use forge_queue.Prelude.{◌≡◌, refl, [], ◌∷◌, All}
use forge_queue.Config.{split, trim_space}
use forge_queue.Config.Names.{IsName, join, split-join, split-IsName}

splits_and_trims : split " default, mail ,," ≡ "default" ∷ "mail" ∷ []
unfolding split
splits_and_trims = refl

splits_nothing : split " , " ≡ "default" ∷ []
unfolding split
splits_nothing = refl

abbrev default_name : IsName "default"
unfolding trim_space
default_name = record { plain = refl; trimmed = refl; filled = refl }

abbrev mail_name : IsName "mail"
unfolding trim_space
mail_name = record { plain = refl; trimmed = refl; filled = refl }

split-join_example : split (join "default" ("mail" ∷ [])) ≡ "default" ∷ "mail" ∷ []
split-join_example = split-join "default" ("mail" ∷ []) default_name (mail_name, tt)

split-IsName_example : All IsName (split " default, mail ,,")
split-IsName_example = split-IsName " default, mail ,,"
