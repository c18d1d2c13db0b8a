-- ===== src/Http/Server.antt =====
-- Requests and responses of Lab1_HTTP_server/httpserver.go. The file system and `path.Ext` are the
-- environment's: what they answer for one request is a parameter.
use tda596labs.Base.{
  if◌then◌else◌, same, ℕ, String, Bool, true, Option, none, some, List, [], ◌∷◌, ◌++◌,
}
use Prim.Native.String.{◌++◌ as str_append}

pub record Response : Type 0 where
  pub proto : String
  pub status : String
  pub status_code : ℕ
  pub close : Bool
  pub header : List (String × String)
  pub body : Option String

pub record Request : Type 0 where
  pub method : String
  pub request_uri : String
  pub proto : String

unfoldable pub default_response : Request → Response
default_response request = record {
  proto = request.proto;
  status = "200 OK";
  status_code = 200;
  close = true;
  header = [];
  body = none;
}

unfoldable pub internal_error_response : Response
internal_error_response = record {
  proto = "HTTP/1.1";
  status = "500 Internal Server Error";
  status_code = 500;
  close = true;
  header = [];
  body = none;
}

-- `Header.Add`.
abbrev pub add_header : String → String → Response → Response
add_header key value r = record r { header = r.header ++ (key, value) ∷ [] }

-- The `switch` of `performGet` on the extension.
unfoldable pub content_type : String → Option String
content_type ext =
    if same ext ".html"
    then some "text/html"
    else if same ext ".txt"
    then some "text/plain"
    else if same ext ".gif"
    then some "image/gif"
    else if same ext ".jpeg"
    then some "image/jpeg"
    else if same ext ".jpg"
    then some "image/jpeg"
    else if same ext ".css"
    then some "text/css"
    else none

-- What the file system does with the file that is asked for; `opened` carries its size, as the
-- header shows it, and its name.
pub data FileOpen : Type 0 where
  getwd_failed open_failed stat_failed : FileOpen
  opened : String → String → FileOpen

abbrev bad_request : Response → Response
bad_request r = record r { status = "400 Bad Request"; status_code = 400 }

-- The value of the header "Content-Disposition".
unfoldable pub disposition : String → String
disposition name = str_append "attachment; filename=\"" (str_append name "\"")

-- `performGet` behind its `switch`.
unfoldable pub send_file : FileOpen → Request → Response → Response
send_file getwd_failed request r = internal_error_response
send_file open_failed request r =
    add_header "Content-Length" "0" (record r { status = "404 Not Found"; status_code = 404 })
send_file stat_failed request r = internal_error_response
send_file (opened size name) request r =
    record (add_header "Content-Disposition" (disposition name)
      (add_header "Content-Length" size r)) { body = some request.request_uri }

unfoldable pub perform_get : (String → String) → FileOpen → Request → Response → Response
perform_get ext disk request r = elim (content_type (ext request.request_uri)) [
  | none ↦ bad_request r
  | some kind ↦ send_file disk request (add_header "Content-Type" kind r)
]

-- What the file system does with the file that is posted.
pub data FilePost : Type 0 where
  getwd_failed create_failed copy_failed stored : FilePost

unfoldable pub perform_post : FilePost → Response → Response
perform_post stored r = r
perform_post getwd_failed r = internal_error_response
perform_post create_failed r = internal_error_response
perform_post copy_failed r = internal_error_response

unfoldable pub handle_http_request :
    (String → String) → FileOpen → FilePost → Request → Response → Response
handle_http_request ext disk post request r =
    if same request.method "GET"
    then perform_get ext disk request r
    else if same request.method "POST"
    then perform_post post r
    else record r { status = "501 Not Implemented"; status_code = 501 }

-- `connectionHandler` between reading the request and writing the response; no response is written
-- if the request cannot be read. A body stands by the request's URI for the file that it names; the
-- writing of the response to the connection, and its failures, are left out.
unfoldable pub respond : (String → String) → FileOpen → FilePost → Option Request → Option Response
respond ext disk post none = none
respond ext disk post (some request) =
    some (handle_http_request ext disk post request (default_response request))
