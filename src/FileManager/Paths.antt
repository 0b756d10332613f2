-- ===== src/FileManager/Paths.antt =====
-- web/src/pages/ServerFiles.tsx: the helpers on paths, names and sizes at the end of the file, and
-- the parts of `Breadcrumbs`.
use mirocraft.Prelude.{
  Bool, true, false, ℕ, ◌+◌, ◌*◌, ◌/◌, ◌%◌, List, [], ◌∷◌, ◌++◌, ◌||◌, ◌&&◌, not, Option, none,
  some, any, drop, length, ◌-◌, ltb, leb, ◌==◌, ◌===◌, if◌then◌else◌, Text, codes, is_empty, split,
  decimal, map,
}
use mirocraft.Api.Types.{FileEntry, file, directory, symlink}

-- `path.replace(/^\/+/, "")`
unfoldable pub clean : Text → Text
clean [] = []
clean (c ∷ s) = let rest = clean s in if c == b'/' then rest else c ∷ s

unfoldable pub join : Text → Text → Text
join dir name = if is_empty dir then name else dir ++ b'/' ∷ name

-- The texts before and behind the last separator: `lastIndexOf` with the slices at it.
abbrev keep_cut : ℕ → ℕ → Text → Option (Text × Text) → Option (Text × Text)
keep_cut d c s (some (l, r)) = some (c ∷ l, r)
keep_cut d c s none = if c == d then some ([], s) else none

unfoldable pub cut_last : ℕ → Text → Option (Text × Text)
cut_last d [] = none
cut_last d (c ∷ s) = keep_cut d c s (cut_last d s)

abbrev before_cut : Option (Text × Text) → Text
before_cut none = []
before_cut (some (l, r)) = l

abbrev behind_cut : Option (Text × Text) → Text
behind_cut none = []
behind_cut (some (l, r)) = r

unfoldable pub parent_of : Text → Text
unfolding clean cut_last
parent_of dir = before_cut (cut_last b'/' (clean dir))

-- `toLowerCase` of ASCII letters, which is what the names below are made of. The two other
-- characters that become such letters are the Kelvin sign and, with a dot, the dotted I.
unfoldable pub to_lower : Text → Text
to_lower [] = []
to_lower (c ∷ s) =
    let rest = to_lower s in
    if leb b'A' c && leb c b'Z'
    then (c + 32) ∷ rest
    else if c == 0x212A
    then b'k' ∷ rest
    else if c == 0x130
    then b'i' ∷ 0x307 ∷ rest
    else c ∷ rest

unfoldable pub extension_of : Text → Text
unfolding cut_last to_lower
extension_of name = to_lower (behind_cut (cut_last b'.' name))

unfoldable pub text_extensions : List Text
text_extensions =
    codes "txt"
    ∷ codes "log"
    ∷ codes "json"
    ∷ codes "yml"
    ∷ codes "yaml"
    ∷ codes "properties"
    ∷ codes "conf"
    ∷ codes "cfg"
    ∷ codes "ini"
    ∷ codes "toml"
    ∷ codes "md"
    ∷ codes "sh"
    ∷ codes "bat"
    ∷ codes "xml"
    ∷ codes "csv"
    ∷ codes "lock"
    ∷ codes "env"
    ∷ codes "mcmeta"
    ∷ []

-- `2 << 20`
abbrev pub max_editable_bytes : ℕ
max_editable_bytes = 2097152

abbrev pub is_directory : FileEntry → Bool
is_directory e = elim e.type [ file ↦ false | directory ↦ true | symlink ↦ false ]

abbrev pub is_file : FileEntry → Bool
is_file e = elim e.type [ file ↦ true | directory ↦ false | symlink ↦ false ]

unfoldable pub is_editable : FileEntry → Bool
unfolding extension_of text_extensions
is_editable e =
    if not (is_file e) || ltb max_editable_bytes e.size
    then false
    else is_empty (extension_of e.name) || any (λ t. t === extension_of e.name) text_extensions

-- `endsWith`
abbrev ends_with : Text → Text → Bool
ends_with s t = leb (length t) (length s) && (drop (length s - length t) s === t)

unfoldable pub is_archive : FileEntry → Bool
unfolding to_lower
is_archive e =
    if not (is_file e)
    then false
    else ends_with (to_lower e.name) (codes ".zip")
      || ends_with (to_lower e.name) (codes ".tar.gz")
      || ends_with (to_lower e.name) (codes ".tgz")

-- `toFixed(0)` and `toFixed(1)` of `bytes / unit`, which round to the nearest, halves up.
abbrev pub rounded : ℕ → ℕ → ℕ
rounded n unit = (2 * n + unit) / (2 * unit)

abbrev to_fixed_1 : ℕ → ℕ → Text
to_fixed_1 n unit =
    let tenths = rounded (10 * n) unit in decimal (tenths / 10) ++ b'.' ∷ decimal (tenths % 10)

unfoldable pub format_size : ℕ → Text
format_size bytes =
    if ltb bytes 1024
    then decimal bytes ++ codes " Б"
    else if ltb bytes 1048576
    then decimal (rounded bytes 1024) ++ codes " КБ"
    else if ltb bytes 1073741824
    then to_fixed_1 bytes 1048576 ++ codes " МБ"
    else to_fixed_1 bytes 1073741824 ++ codes " ГБ"

-- `parts.join("/")`
unfoldable pub join_parts : List Text → Text
join_parts [] = []
join_parts (part ∷ []) = part
join_parts (part ∷ next ∷ parts) = part ++ b'/' ∷ join_parts (next ∷ parts)

-- `parts.slice(0, index + 1)` for each index.
unfoldable pub prefixes : List Text → List (List Text)
prefixes [] = []
prefixes (part ∷ parts) = (part ∷ []) ∷ map (λ before. part ∷ before) (prefixes parts)

-- The targets of the breadcrumbs, one for each part of the path.
unfoldable pub breadcrumbs : Text → List Text
unfolding clean prefixes join_parts split
breadcrumbs dir =
    if is_empty (clean dir) then [] else map join_parts (prefixes (split b'/' (clean dir)))
