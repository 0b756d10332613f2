-- ===== src/Pages/Modpacks/Counts.antt =====
-- web/src/pages/ServerModpacks.tsx and web/src/pages/Servers.tsx: their two ways to count in
-- Russian.
use mirocraft.Prelude.{◌≡◌, ℕ, ◌++◌, codes, decimal, arith}
use mirocraft.Servers.{plural}
use mirocraft.Pages.Modpacks.{plural_files}

-- For every number, the count of files of the modpack page has the form that the count of the
-- server list would give to it, though the two test the last digits in a different order.
pub plural-plural_files :
    (n : ℕ)
    → plural n (codes "файл") (codes "файла") (codes "файлов")
      ≡ decimal n ++ codes " " ++ plural_files n
unfolding plural plural_files
plural-plural_files n = ground arith
