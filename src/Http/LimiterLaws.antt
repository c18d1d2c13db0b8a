-- ===== src/Http/LimiterLaws.antt =====
-- The server of Lab1_HTTP_server/httpserver.go serves at most MAX_CONNECTIONS at a time and never
-- waits for nothing; the proxy of Lab1_HTTP_server/Proxy/proxy.go can.
use tda596labs.Base.{
  Outcome, ok, ◌>>=◌, Returns, ℕ, zero, suc, ◌≤◌, ◌<◌, ◌≡◌, refl, ◌⊎◌, inl, Bool, true, false,
  arith,
}
use tda596labs.Http.Limiter.{
  max_connections, Limiter, fresh, accept, wake, server_handler_ends, proxy_handler_ends,
}

-- One step of the server's goroutines that the lock allows.
pub data Step (s : Limiter) : Outcome Limiter → Type 0 where
  accepts : {r : Outcome Limiter} → s.waiting ≡ false → r ≡ accept s → Step s r
  wakes : {r : Outcome Limiter} → s.waiting ≡ true → s.signalled ≡ true → r ≡ wake s → Step s r
  ends : {r : Outcome Limiter} → 0 < s.active → r ≡ ok (server_handler_ends s) → Step s r

pub data Reach : Limiter → Type 0 where
  start : Reach fresh
  next : {s t : Limiter} → Reach s → Step s (ok t) → Reach t

pub record Inv (s : Limiter) : Type 0 where
  pub counted : s.num_connections ≡ s.active
  pub bounded : s.num_connections ≤ max_connections
  -- `main` waits only while all connections are taken, or when it has been woken.
  pub no_idle_wait :
      (s.waiting ≡ false) ⊎ (s.num_connections ≡ max_connections) ⊎ (s.signalled ≡ true)

pub Step-Inv : (s : Limiter) {r : Outcome Limiter} → Inv s → Step s r → Returns r Inv
Step-Inv s v (accepts w e) = rw e (unfold accept in ground arith)
Step-Inv s v (wakes w g e) = rw e (unfold wake in ground arith)
Step-Inv s v (ends a e) = rw e (unfold server_handler_ends in ground arith)

Reach-Inv : {s : Limiter} → Reach s → Inv s
Reach-Inv start = record { counted = refl; bounded = omega arith; no_idle_wait = inl refl }
Reach-Inv (next {s} r t) = Step-Inv s (Reach-Inv r) t

-- In every state that the server reaches the counter is the number of running handlers and at most
-- MAX_CONNECTIONS, `main` waits only while every connection is taken or with a wake-up pending, and
-- no step exits with "Server capacity exceeded".
pub server_limits :
    (s : Limiter) → Reach s → (r : Outcome Limiter) → Step s r → Inv s × Returns r Inv
server_limits s h r t = (Reach-Inv h, Step-Inv s (Reach-Inv h) t)

-- One client after another that sends no GET request to the proxy.
unfoldable pub refused_clients : ℕ → Limiter → Outcome Limiter
refused_clients zero s = ok s
refused_clients (suc n) s = accept s >>= λ t. refused_clients n (proxy_handler_ends false t)

-- One step of the proxy's goroutines that the lock allows; a handler decrements or does not.
pub data ProxyStep (s : Limiter) : Outcome Limiter → Type 0 where
  accepts : {r : Outcome Limiter} → s.waiting ≡ false → r ≡ accept s → ProxyStep s r
  wakes : {r : Outcome Limiter} → s.waiting ≡ true → s.signalled ≡ true → r ≡ wake s → ProxyStep s r
  ends :
      {r : Outcome Limiter} (counted : Bool)
      → 0 < s.active
      → r ≡ ok (proxy_handler_ends counted s)
      → ProxyStep s r
