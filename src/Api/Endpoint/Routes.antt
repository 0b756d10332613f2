-- ===== src/Api/Endpoint/Routes.antt =====
-- The URLs of web/src/lib/api.ts, as a server reads them that splits a URL at its separators and
-- decodes the parts.
use mirocraft.Prelude.{
  ◌≡◌, [], ◌∷◌, ◌++◌, Text, codes, split, cut, All, Lacks, split-append, cut-append,
}
use mirocraft.Api.Uri.{encode_uri_component}
use mirocraft.Api.Uri.Decode.{decode_uri_component}
use mirocraft.Api.Uri.Laws.{
  IsInert, IsCodePoint, encode_uri_component-IsInert, decode-encode_uri_component,
}
use mirocraft.Api.Servers.{delete_server}
use mirocraft.Api.Catalog.{toggle_installed}
use mirocraft.Api.Files.{list_files, read_file, write_file, delete_file}

Lacks-slash : (t : Text) → All IsInert t → Lacks b'/' t
Lacks-slash [] h = tt
Lacks-slash (c ∷ t) (h, k) = (h.0, Lacks-slash t k)

-- A part of a URL that stands for a text: it holds no separator, and decodes to the text.
pub record StandsFor (s part : Text) : Type 0 where
  pub inert : All IsInert part
  pub decoded : decode_uri_component part ≡ s

encode-StandsFor : (s : Text) → All IsCodePoint s → StandsFor s (encode_uri_component s)
encode-StandsFor s points = record {
  inert = encode_uri_component-IsInert s points;
  decoded = decode-encode_uri_component s points;
}

module _ (id s : Text) (clean : Lacks b'/' id) (points : All IsCodePoint s) where
  -- Whatever the code points of an installed add-on's name, slashes included, and for a server's id
  -- without a slash, the path of the toggle has six parts, of which the fifth holds no separator
  -- and decodes to the name.
  pub split-toggle_installed :
      (part : Text) × (split b'/' (toggle_installed id s).path
        ≡ [] ∷ codes "servers" ∷ id ∷ codes "installed" ∷ part ∷ codes "toggle" ∷ [])
      × StandsFor s part
  unfolding toggle_installed codes split
  split-toggle_installed =
      let stands = encode-StandsFor s points in
      (
        encode_uri_component s,
        rw (
          split-append b'/' id _ clean,
          split-append b'/' (encode_uri_component s) _ (Lacks-slash _ stands.inert),
        ),
        stands,
      )

-- The path ends at the first `?`; behind it stand the name of one parameter, `=` and its value.
pub record AsksFor (path name value url : Text) : Type 0 where
  pub part : Text
  pub address : cut b'?' url ≡ (path, name ++ b'=' ∷ part)
  pub stands : StandsFor value part

module _ (id s : Text) (clean : Lacks b'?' id) (points : All IsCodePoint s) where
  abbrev Asks : Text → Text → Text → Type 0
  Asks tail name url = AsksFor (codes "/servers/" ++ id ++ tail) name s url

  asks :
      (tail name url : Text)
      → cut b'?' url ≡ (codes "/servers/" ++ id ++ tail, name ++ b'=' ∷ encode_uri_component s)
      → Asks tail name url
  asks tail name url e = record {
    part = encode_uri_component s;
    address = e;
    stands = encode-StandsFor s points;
  }

  -- For a server's id without a question mark, the query of a deletion holds one parameter,
  -- `confirm`, whose value decodes to the typed name, whatever its code points.
  pub delete_server-AsksFor : Asks [] (codes "confirm") (delete_server id s).path
  unfolding delete_server codes cut
  delete_server-AsksFor = asks [] (codes "confirm") _ (rw (cut-append b'?' id _ clean))

  -- For a server's id without a question mark, the four calls that name a file by a query have a
  -- path that the server alone determines, and the query holds one parameter, whose value decodes
  -- to the file's path, whatever its code points.
  pub files-AsksFor :
      (content : Text)
      → Asks (codes "/files") (codes "path") (list_files id s).path
        × Asks (codes "/files/content") (codes "path") (read_file id s).path
        × Asks (codes "/files/content") (codes "path") (write_file id s content).path
        × Asks (codes "/files") (codes "path") (delete_file id s).path
  unfolding list_files read_file write_file delete_file codes cut
  files-AsksFor content = (
    asks (codes "/files") (codes "path") _ (rw (cut-append b'?' id _ clean)),
    asks (codes "/files/content") (codes "path") _ (rw (cut-append b'?' id _ clean)),
    asks (codes "/files/content") (codes "path") _ (rw (cut-append b'?' id _ clean)),
    asks (codes "/files") (codes "path") _ (rw (cut-append b'?' id _ clean)),
  )
