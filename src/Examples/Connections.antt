-- ===== src/Examples/Connections.antt =====
-- The server and the proxy of Lab1_HTTP_server at concrete states and requests.
use tda596labs.Base.{Returns, String, refl, false}
use tda596labs.Http.Limiter.{Limiter, fresh, accept}
use tda596labs.Http.LimiterLaws.{accepts, start, Inv, server_limits}
use tda596labs.Http.Server.{Request}
use Prim.Native.String.{◌++◌ as str_append}

server_limits_example : Inv fresh × Returns (accept fresh) Inv
server_limits_example = server_limits fresh start (accept fresh) (accepts refl refl)

abbrev five_counted : Limiter
five_counted = record {
  num_connections = 5;
  num_total = 9;
  active = 0;
  waiting = false;
  signalled = false;
}

abbrev html_only : String → String
html_only uri = ".html"

abbrev gets : tda596labs.Http.Server.Request
gets = record { method = "GET"; request_uri = "/index.html"; proto = "HTTP/1.1" }

abbrev asks_host : String → tda596labs.Http.Proxy.Request
asks_host method = record { method = method; host = "example.org:80"; proto = "HTTP/1.1" }
