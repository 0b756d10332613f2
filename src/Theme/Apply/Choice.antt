-- ===== src/Theme/Apply/Choice.antt =====
-- A custom choice and the id of its theme.
use mirocraft.Prelude.{◌≡◌, true, Text, starts_with-append, drop-length-append}
use mirocraft.Theme.Apply.{is_custom, custom_id, custom_choice, custom_prefix}

-- A custom choice is recognised as one, and gives back the id of its theme.
pub custom_choice_lem :
    (id : Text) → (is_custom (custom_choice id) ≡ true) × (custom_id (custom_choice id) ≡ id)
unfolding is_custom custom_id custom_choice
custom_choice_lem id = (starts_with-append custom_prefix id, drop-length-append custom_prefix id)
