-- ===== src/Tests/Urls.antt =====
-- URLs and the names of downloads at concrete inputs.
use mirocraft.Prelude.{◌≡◌, refl, [], ◌∷◌, ◌++◌, Text, codes, All, Lacks, split, arith}
use mirocraft.Api.Uri.{encode_uri_component}
use mirocraft.Api.Uri.Laws.{IsCodePoint}
use mirocraft.Api.Endpoint.Routes.{StandsFor, AsksFor, split-toggle_installed, files-AsksFor}
use mirocraft.Api.Catalog.{toggle_installed}
use mirocraft.Api.Files.{list_files, read_file, write_file, delete_file}

abbrev file_name : Text
file_name = codes "a/б?.jar"

file_name-IsCodePoint : All IsCodePoint file_name
unfolding codes
file_name-IsCodePoint = omega arith

abbrev server_id : Text
server_id = codes "s1"

server_id-Lacks_slash : Lacks b'/' server_id
unfolding codes
server_id-Lacks_slash = omega arith

server_id-Lacks_mark : Lacks b'?' server_id
unfolding codes
server_id-Lacks_mark = omega arith

encode_at_file_name : encode_uri_component file_name ≡ codes "a%2F%D0%B1%3F.jar"
unfolding encode_uri_component codes
encode_at_file_name = refl

split-toggle_installed_example :
    (part : Text) × (split b'/' (toggle_installed server_id file_name).path
      ≡ [] ∷ codes "servers" ∷ server_id ∷ codes "installed" ∷ part ∷ codes "toggle" ∷ [])
    × StandsFor file_name part
split-toggle_installed_example =
    split-toggle_installed server_id file_name server_id-Lacks_slash file_name-IsCodePoint

abbrev Asks : Text → Text → Text → Type 0
Asks tail name url = AsksFor (codes "/servers/" ++ server_id ++ tail) name file_name url

files-AsksFor_example :
    Asks (codes "/files") (codes "path") (list_files server_id file_name).path
    × Asks (codes "/files/content") (codes "path") (read_file server_id file_name).path
    × Asks (codes "/files/content") (codes "path") (write_file server_id file_name (codes "x")).path
    × Asks (codes "/files") (codes "path") (delete_file server_id file_name).path
files-AsksFor_example =
    files-AsksFor server_id file_name server_id-Lacks_mark file_name-IsCodePoint (codes "x")

level-Lacks : Lacks b'/' (codes "level.dat")
unfolding codes
level-Lacks = omega arith
