-- ===== src/Worker/System.antt =====
-- One worker of Lab2_MapReduce/src/mr/worker.go and the coordinator of mr/coordinator.go: the
-- coordinator's handlers are what the worker's RPCs reach.
use tda596labs.Base.{
  replicate, Outcome, ok, panic, fatal, ◌>>=◌, ℕ, String, Bool, true, false, Option, none, some,
}
use tda596labs.Base.IntMap.{IntMap, insert}
use tda596labs.Coordinator.Types.{Bytes, Coordinator, WorkReply, FileRead}
use tda596labs.Coordinator.Handlers.{empty_reply, get_work, worker_dead, do_setup, work_done}
use tda596labs.Coordinator.Runs.{ticks, run}
use tda596labs.Worker.Process.{Rpcs}

-- The coordinator and its directory `output`, by reduce job.
pub record System : Type 0 where
  pub coordinator : Coordinator
  pub output : IntMap Bytes

abbrev pub add_output : Option (ℕ × Bytes) → IntMap Bytes → IntMap Bytes
add_output none output = output
add_output (some (job_id, bytes)) output = insert job_id bytes output

-- What a reply to `GetWork` makes of the system; a handler that panics answers nothing.
abbrev pub got_work : System → Outcome (Coordinator × WorkReply) → System × Option WorkReply
got_work s (ok (c, reply)) = (record s { coordinator = c }, some reply)
got_work s panic = (s, none)
got_work s fatal = (s, none)

abbrev pub did_work : System → Outcome (Coordinator × Option (ℕ × Bytes)) → System
did_work s (ok (c, out)) = record s { coordinator = c; output = add_output out s.output }
did_work s panic = s
did_work s fatal = s

abbrev pub buried : System → Outcome Coordinator → System × Bool
buried s (ok c) = (record s { coordinator = c }, true)
buried s panic = (s, false)
buried s fatal = (s, false)

-- `serverHandler` runs `pause` rounds before each request for work; no other worker answers.
unfoldable pub rpcs_of : (String → FileRead) → ℕ → Rpcs System
rpcs_of fs pause = record {
  setup = λ s address.
      let r = do_setup s.coordinator address in (record s { coordinator = r.0 }, some (r.1));
  get_work = λ s worker_id.
      got_work s
        (run fs s.coordinator (replicate pause ticks) >>= λ c. get_work fs c worker_id empty_reply);
  work_done = λ s complete. did_work s (work_done true s.coordinator complete);
  worker_dead = λ s failed. buried s (worker_dead s.coordinator failed);
  get_files = λ s address b. none;
}
