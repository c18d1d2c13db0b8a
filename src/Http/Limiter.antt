-- ===== src/Http/Limiter.antt =====
-- The connection counters of Lab1_HTTP_server/httpserver.go (`main`, `decrement`) and of
-- Lab1_HTTP_server/Proxy/proxy.go. `main` accepts one connection at a time and waits on the
-- condition variable while MAX_CONNECTIONS are served; `active` counts the handlers that run, and
-- `signalled` says that a `Signal` has woken a waiting `main` which has not run since.
use tda596labs.Base.{
  ltb, ◌==◌, if◌then◌else◌, Outcome, ok, fatal, ℕ, ◌+◌, ◌-◌, Bool, true, false, ◌||◌,
}

abbrev pub max_connections : ℕ
max_connections = 10

pub record Limiter : Type 0 where
  pub num_connections : ℕ
  pub num_total : ℕ
  pub active : ℕ
  pub waiting : Bool
  pub signalled : Bool

abbrev pub fresh : Limiter
fresh = record {
  num_connections = 0;
  num_total = 0;
  active = 0;
  waiting = false;
  signalled = false;
}

-- `main` behind its wait: one more connection, and a handler for it, or `log.Fatal`.
unfoldable pub admit : Limiter → Outcome Limiter
admit s =
    let s' : Limiter = record s { num_connections = s.num_connections + 1 } in
    if ltb max_connections s'.num_connections
    then fatal
    else ok (record s' { active = s.active + 1; waiting = false; signalled = false })

-- `main` takes a connection: it is counted, and admitted at once or kept waiting.
unfoldable pub accept : Limiter → Outcome Limiter
unfolding admit
accept s =
    let s' : Limiter = record s { num_total = s.num_total + 1 } in
    if s'.num_connections == max_connections
    then ok (record s' { waiting = true; signalled = false })
    else admit s'

-- `main` is woken: it tests the count again.
unfoldable pub wake : Limiter → Outcome Limiter
unfolding admit
wake s =
    if s.num_connections == max_connections then ok (record s { signalled = false }) else admit s

-- `decrement`, by a handler of the server.
unfoldable pub decrement : Limiter → Limiter
decrement s =
    let s' : Limiter = record s { num_connections = s.num_connections - 1 } in
    if s'.num_connections == max_connections - 1
    then record s' { signalled = s.signalled || s.waiting }
    else s'

-- A handler of the server ends: on both of its paths it decrements.
unfoldable pub server_handler_ends : Limiter → Limiter
unfolding decrement
server_handler_ends s = record (decrement s) { active = s.active - 1 }

-- The last lines of the proxy's `connectionHandler`.
unfoldable pub proxy_decrement : Limiter → Limiter
proxy_decrement s =
    let s' : Limiter = record s { num_connections = s.num_connections - 1 } in
    if s'.num_connections == max_connections - 1
    then record s' { signalled = s.signalled || s.waiting }
    else s'

-- A handler of the proxy ends: it decrements only if it read a GET request.
unfoldable pub proxy_handler_ends : Bool → Limiter → Limiter
unfolding proxy_decrement
proxy_handler_ends forwarded s =
    let s' : Limiter = if forwarded then proxy_decrement s else s in
    record s' { active = s.active - 1 }
