-- ===== src/Api/Files.antt =====
-- web/src/lib/api.ts: the files of a server, and the calls that bypass `request`.
pub mod Laws
use mirocraft.Prelude.{[], ◌++◌, get_or_else, if◌then◌else◌, Text, codes, split, last?}
use mirocraft.Api.Json.{Json, undefined, null, str, obj, end, object, entry, property, nullish}
use mirocraft.Api.Session.{get_token}
use mirocraft.Api.Http.{
  api_base, Fetch, Fetched, answered, unreachable, Call, Outcome, returned, threw, Failure,
  api_error, network, syntax, type_error, Response, empty, malformed, json, is_ok, UploadFile,
  HttpRequest, Headers, Body, no_body, multipart, set_header, authorize, json_type, Method, get,
  post, put, delete, plain,
}
use mirocraft.Api.Endpoint.{Endpoint, item, calls, sends, server_path, query}

unfoldable pub list_files : Text → Text → Endpoint
list_files id path = record {
  path = server_path id (codes "/files" ++ query (codes "path") path);
  init = plain get;
  reply = item (codes "items");
}

unfoldable pub read_file : Text → Text → Endpoint
read_file id path = record {
  path = server_path id (codes "/files/content" ++ query (codes "path") path);
  init = plain get;
  reply = item (codes "content");
}

unfoldable pub write_file : Text → Text → Text → Endpoint
write_file id path content =
    sends put (server_path id (codes "/files/content" ++ query (codes "path") path))
      (object (entry (codes "content") (str content)))

unfoldable pub delete_file : Text → Text → Endpoint
delete_file id path = calls delete (server_path id (codes "/files" ++ query (codes "path") path))

unfoldable pub make_directory : Text → Text → Endpoint
make_directory id path =
    sends post (server_path id (codes "/files/mkdir")) (object (entry (codes "path") (str path)))

unfoldable pub move_path : Text → Text → Text → Endpoint
move_path id from to =
    sends post (server_path id (codes "/files/move"))
      (object (entry (codes "from") (str from) ++ entry (codes "to") (str to)))

unfoldable pub unarchive : Text → Text → Text → Endpoint
unarchive id path destination =
    sends post (server_path id (codes "/files/unarchive"))
      (object (entry (codes "path") (str path) ++ entry (codes "destination") (str destination)))

-- `fetch` without the plumbing of `request`: the answer is handed on as it came.
module _ {Net : Type 0} (fetch : Fetch Net) where
  abbrev send : {A : Type 0} → Method → Text → Headers → Body → (Fetched → Outcome A) → Call Net A
  send method path headers body read w =
      let req : HttpRequest = record {
        method = method;
        url = api_base ++ path;
        headers = authorize (get_token w.storage) headers;
        body = body;
      } in
      let (answer, net') = fetch req w.net in (read answer, record w { net = net' })

-- The error of a failed upload carries no details.
abbrev upload_error : Response → Json → Failure
upload_error r error =
    api_error r.status (nullish (property (codes "code") error) (str (codes "internal_error")))
      (nullish (property (codes "message") error) (str r.status_text)) undefined

-- `JSON.parse(text).error ?? {}`
abbrev upload_failure : Response → Json → Failure
upload_failure r null = type_error
upload_failure r body = upload_error r (nullish (property (codes "error") body) (obj end))

unfoldable pub read_upload : Fetched → Outcome (Unit {0})
unfolding property
read_upload unreachable = threw network
read_upload (answered r) = if is_ok r then returned tt else elim r.payload [
  | empty ↦ threw (upload_error r (obj end))
  | malformed ↦ threw syntax
  | json body ↦ threw (upload_failure r body)
]

-- What the browser saves: the bytes of a response under a name.
pub record Saved : Type 0 where
  pub name : Text
  pub content : Response

unfoldable pub read_download : Text → Text → Fetched → Outcome Saved
read_download message name unreachable = threw network
read_download message name (answered r) =
    if is_ok r
    then returned (record { name = name; content = r })
    else threw (api_error r.status (str (codes "download_failed")) (str message) undefined)

-- `path.split("/").pop() ?? "file"`
unfoldable pub download_name : Text → Text
unfolding split last?
download_name path = get_or_else (last? (split b'/' path)) (codes "file")

module _ {Net : Type 0} (fetch : Fetch Net) where
  unfoldable pub upload_file : Text → Text → UploadFile → Call Net (Unit {0})
  unfolding read_upload set_header authorize get_token
  upload_file id dir file =
      send fetch post (server_path id (codes "/files/upload"))
        (set_header (codes "Accept") json_type []) (multipart dir file) read_upload

  unfoldable pub download_file : Text → Text → Call Net Saved
  unfolding read_download download_name authorize get_token
  download_file id path =
      send fetch get (server_path id (codes "/files/download" ++ query (codes "path") path)) []
        no_body (read_download (codes "Не удалось скачать файл") (download_name path))

  unfoldable pub download_backup : Text → Text → Text → Call Net Saved
  unfolding read_download authorize get_token
  download_backup id backup_id name =
      send fetch get (server_path id (codes "/backups/" ++ backup_id ++ codes "/download")) []
        no_body (read_download (codes "Не удалось скачать бэкап") name)
