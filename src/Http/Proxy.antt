-- ===== src/Http/Proxy.antt =====
-- Requests and responses of Lab1_HTTP_server/Proxy/proxy.go. The network is the environment's:
-- what it does for one request is a parameter.
use tda596labs.Base.{
  if◌then◌else◌, same, same_ne, ℕ, ◌-◌, String, ◌≡◌, refl, ◌≢◌, ◌⊎◌, inl, inr, Bool, true, false,
  not, ◌||◌, Option, none, some, arith,
}
use tda596labs.Http.Limiter.{Limiter, proxy_handler_ends}
use Prim.Native.String.{◌++◌ as str_append}

pub record Request : Type 0 where
  pub method : String
  pub host : String
  pub proto : String

-- The responses that the proxy makes itself, by their status line, and one that it passes on.
pub data Reply : Type 0 where
  own : ℕ → String → Reply
  forwarded : ℕ → Reply

unfoldable pub bad_request : Reply
bad_request = own 400 "400 Bad Request"

unfoldable pub internal_error_response : Reply
internal_error_response = own 500 "500 Internal Server Error"

unfoldable pub not_found : Reply
not_found = own 404 "404 Not Found"

unfoldable pub not_implemented : Reply
not_implemented = own 501 "501 Not Implemented"

unfoldable pub valid_get_request : Request → Bool
valid_get_request request = same request.method "GET"

-- What the server at the request's address does: no connection, no request taken, no response
-- that can be read, or a response.
pub data Upstream : Type 0 where
  dial_failed write_failed read_failed : Upstream
  responds : ℕ → Upstream

-- `requestAndForward` behind its checks: what is written to the client, if anything is.
unfoldable pub forward : Upstream → Option Reply
forward dial_failed = some not_found
forward write_failed = none
forward read_failed = some bad_request
forward (responds code) = some (forwarded code)

-- `requestAndForward`; the first result says whether the server is dialled.
unfoldable pub request_and_forward : String → String → Upstream → Request → Bool × Option Reply
request_and_forward local_addr port upstream request =
    if same request.host ""
    then (false, some bad_request)
    else if same request.host local_addr || same request.host (str_append "localhost:" port)
    then (false, some bad_request)
    else (true, forward upstream)

-- `connectionHandler`: whether the server is dialled, what the client gets, and whether the
-- counter is decremented.
unfoldable pub connection_handler :
    String → String → Upstream → Option Request → Bool × Option Reply × Bool
connection_handler local_addr port upstream none = (false, some internal_error_response, false)
connection_handler local_addr port upstream (some request) =
    let r = request_and_forward local_addr port upstream request in
    if not (valid_get_request request)
    then (false, some not_implemented, false)
    else (r.0, r.1, true)

-- The counter after a connection is handled.
unfoldable pub handle : String → String → Upstream → Option Request → Limiter → Limiter
handle local_addr port upstream request s =
    proxy_handler_ends (connection_handler local_addr port upstream request).2 s

-- What a client gets whose request is dialled for, by what the server does.
abbrev pub Relayed : Upstream → Option Reply → Type 0
Relayed dial_failed reply = reply ≡ some (own 404 "404 Not Found")
Relayed write_failed reply = reply ≡ none
Relayed read_failed reply = reply ≡ some (own 400 "400 Bad Request")
Relayed (responds code) reply = reply ≡ some (forwarded code)

-- A connection whose request cannot be read, or is no GET request, is never given back: the
-- counter stays and the handler is gone.
pub refused_not_counted :
    (local_addr port : String) (upstream : Upstream) (request : Option Request) (s : Limiter)
    → (request ≡ none) ⊎ ((r : Request) × (request ≡ some r) × (r.method ≢ "GET"))
    → ((handle local_addr port upstream request s).num_connections ≡ s.num_connections)
      × ((handle local_addr port upstream request s).active ≡ s.active - 1)
unfolding handle connection_handler valid_get_request proxy_handler_ends
refused_not_counted local_addr port upstream none s h = (refl, refl)
refused_not_counted local_addr port upstream (some r) s (inl e) = cc
refused_not_counted local_addr port upstream (some r) s (inr (q, e, n)) =
    let m : same r.method "GET" ≡ false = same_ne r.method "GET" (ground (arith, n)) in
    rw m (refl, refl)
