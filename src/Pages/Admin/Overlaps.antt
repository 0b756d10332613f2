-- ===== src/Pages/Admin/Overlaps.antt =====
-- web/src/pages/Admin.tsx: two actions may be under way at once.
use mirocraft.Prelude.{Bool, true, false}
use mirocraft.Pages.Run.{Running}
use mirocraft.Pages.Admin.{Admin, Job, list, shown}

abbrev pub is_action : Job → Bool
is_action (list shown) = false
is_action job = true
