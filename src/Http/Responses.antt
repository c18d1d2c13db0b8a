-- ===== src/Http/Responses.antt =====
-- What the responses of Lab1_HTTP_server/httpserver.go are, request by request.
use tda596labs.Base.{
  if◌then◌else◌, same, String, ◌≡◌, ◌≢◌, ◌⊎◌, true, Option, none, some, List, [], ◌∷◌,
}
use tda596labs.Http.Server.{
  Response, Request, FileOpen, getwd_failed, open_failed, stat_failed, opened, FilePost, stored,
}
use Prim.Native.String.{◌++◌ as str_append}

-- The extensions that are served, with their types.
abbrev pub served_types : List (String × String)
served_types =
    (".html", "text/html")
    ∷ (".txt", "text/plain")
    ∷ (".gif", "image/gif")
    ∷ (".jpeg", "image/jpeg")
    ∷ (".jpg", "image/jpeg")
    ∷ (".css", "text/css")
    ∷ []

-- The type under which an extension stands in a table.
abbrev pub type_in : List (String × String) → String → Option String
type_in [] ext = none
type_in ((known, kind) ∷ table) ext =
    let rest = type_in table ext in if same ext known then some kind else rest

-- The response of a request that the server fails on.
abbrev pub server_failed : Response
server_failed = record {
  proto = "HTTP/1.1";
  status = "500 Internal Server Error";
  status_code = 500;
  close = true;
  header = [];
  body = none;
}

-- What the status code of a response says of the request.
pub data Explained (ext : String → String) (disk : FileOpen) (post : FilePost) (request : Request)
    (r : Response) : Type 0 where
  got :
      request.method ≡ "GET"
      → (kind size name : String) → type_in served_types (ext request.request_uri) ≡ some kind
      → disk ≡ opened size name
      → r.status_code ≡ 200
      → r.status ≡ "200 OK"
      → r.body ≡ some request.request_uri
      → r.header
        ≡ ("Content-Type", kind)
          ∷ ("Content-Length", size)
          ∷ ("Content-Disposition", str_append "attachment; filename=\"" (str_append name "\""))
          ∷ []
      → Explained ext disk post request r
  not_found :
      request.method ≡ "GET"
      → (kind : String) → type_in served_types (ext request.request_uri) ≡ some kind
      → disk ≡ open_failed
      → r.status_code ≡ 404
      → r.status ≡ "404 Not Found"
      → r.body ≡ none
      → Explained ext disk post request r
  unsupported :
      request.method ≡ "GET"
      → type_in served_types (ext request.request_uri) ≡ none
      → r.status_code ≡ 400
      → r.status ≡ "400 Bad Request"
      → r.body ≡ none
      → r.header ≡ []
      → Explained ext disk post request r
  unreadable :
      request.method ≡ "GET"
      → (disk ≡ getwd_failed) ⊎ (disk ≡ stat_failed)
      → r ≡ server_failed
      → Explained ext disk post request r
  posted :
      request.method ≡ "POST"
      → post ≡ stored
      → r.status_code ≡ 200
      → r.status ≡ "200 OK"
      → r.body ≡ none
      → Explained ext disk post request r
  unwritable :
      request.method ≡ "POST"
      → post ≢ stored
      → r ≡ server_failed
      → Explained ext disk post request r
  other :
      request.method ≢ "GET"
      → request.method ≢ "POST"
      → r.status_code ≡ 501
      → r.status ≡ "501 Not Implemented"
      → r.body ≡ none
      → Explained ext disk post request r
