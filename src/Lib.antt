-- ===== src/Lib.antt =====
-- Verification of the labs of this repository: the MapReduce coordinator and worker and the Raft
-- peer of Lab2_MapReduce, the Chord node of Lab3_Chord, and the server and the proxy of
-- Lab1_HTTP_server. The labs are separate programs; within each, processes talk by RPC or TCP.
--
-- Base holds what the parts share: tests on natural numbers and texts, lists with numeric
-- indices, Go's maps with integer keys as association lists (Base/IntMap), and `Outcome`, the
-- end of a Go call: a value, a run-time panic, or log.Fatal (Base/Panics).
--
-- Coordinator: Lab2_MapReduce/src/mr/coordinator.go and mr/rpc.go. Types has the structs, Jobs
-- the loops over the job tables, Handlers one function for each RPC handler and for a round of
-- serverHandler. Each handler holds the mutex from end to end, so Runs takes a run as a sequence
-- of whole handlers. Answers is the relation of a call of GetWork to its reply, and Dispatch,
-- Safety, Recovery, Retries and Replies hold the theorems. What the file system answers is a
-- parameter; where it is assumed, each input file can be opened.
-- Spec has what a coordinator promises, as moves on a board of finished jobs; Observed is a run with
-- what is seen of it and the board that a state keeps, and Moves and Refines hold the refinement.
--
-- Worker: Lab2_MapReduce/src/mr/worker.go. Tasks has the loops of DoMap and DoReduce, with
-- FNV-1a, the sort and the reduce function as parameters. The outer loop of DoReduce runs on
-- fuel, the number of pairs, which is enough since each round takes at least one pair. Sequential
-- is Lab2_MapReduce/src/main/mrsequential.go and the hand-over from map tasks to a reduce task,
-- and Agreement compares the two programs. Process is the whole process on its state and its
-- directory: the set-up, the loop of Worker on fuel, its tasks and its RPCs, over one interface
-- for the RPCs and one for the libraries and the application. A JSON file is taken as the pairs
-- that it holds. System fills the interface with the coordinator's handlers, for one worker, with
-- a fixed number of rounds of serverHandler right before each request for work. Turns is one turn of the
-- loop; Tables, Lone and LoneTurns follow that worker through the coordinator's tables turn by
-- turn, Shuffle its files, and LoneRun and LoneResults its run; the fuel is the number of input
-- files, the number of reduce jobs and one, which is enough since each turn finishes a job.
-- Spread is a reduce task whose map outputs lie with several workers. Apps has the applications
-- wc.go, indexer.go, nocrash.go and early_exit.go of Lab2_MapReduce/src/mrapps, and AppLaws and
-- IndexLaws what they compute. The RPC transport, the listener, the requests for output files
-- that no worker sends and several workers that ask the coordinator by turns are not modelled.
--
-- Chord: Lab3_Chord. Ring is chordUtil.go, with keySize = 160; Types is chordTypes.go and
-- rpc.go; Lookup, Membership, Repair and Files are the handlers and helpers of chord.go; Calls
-- is chordRPC.go, and NodeRuns lets handlers and sections of calls reach a node in any order. A
-- call that releases the lock around its RPC takes the rest of the ring as a parameter: the
-- node's state when the lock is held again, and the answer, if one comes. SHA-1 and the disk are
-- parameters. The loops run over the 160 fingers, over 32 rounds or over the 30 looks of
-- initIntervals, as in the source. Cipher is encrypt and decrypt over an interface for AES and GCM,
-- Commands the switch of the command line with CallStoreFile and CallLookup, on lines of ASCII,
-- CommandLine parseInput as a whole, StoredFiles a file on its way from one command line to another,
-- Startup getArgs and the start of main, and Transfers what reassignDuplicatedToMe sends. A path is
-- the owner, the directory and the name. What os.Remove does, and what other handlers do while
-- reassignToPred has the lock released, are parameters. The transport, TLS, the directories of
-- initDuplication and the texts that are printed are not modelled.
--
-- Raft: Lab2_MapReduce/src/raft/raft.go and persister.go. Server has the RPC handlers and, of
-- each goroutine, the critical sections between its pauses and RPCs; Votes lets vote
-- requests, appends, vote replies and election timeouts reach one peer in any order, and Quorum puts
-- the votes of a cluster together; the answers to heartbeats are not among these events, and Terms
-- says what one can do. The vote -1 is `none`. The
-- log handling that the source leaves empty, the network and the timing are not modelled.
--
-- Http: Lab1_HTTP_server/httpserver.go, httptypes.go and Proxy/proxy.go. Limiter is the main
-- loop with its mutex and condition variable as steps on counters, Server and Proxy map a
-- request to its response, and Responses says what it is. The file system, path.Ext and the
-- network are parameters.
--
-- Kv: the clerks of Lab2_MapReduce/src/shardctrler/client.go and shardkv/client.go, with their messages
-- in the two files common.go. The loops, which the source never leaves without an answer, run on fuel,
-- the number of rounds; what the network answers in each round is a parameter, and so are the
-- configurations that a shard clerk gets. ClerkLaws, ClerkAnswers and CtrlLaws say when the loops end.
-- Model is the sequential specification of Lab2_MapReduce/src/models/kv.go.
--
-- Examples applies the theorems to concrete states. Integers that the programs use only as
-- indices, counters, terms and ids are natural numbers. The tests, their harnesses, the copied
-- libraries (porcupine, labrpc, labgob) and the course's empty skeletons are not modelled.
pub mod Base
pub mod Coordinator
pub mod Chord
pub mod Raft
pub mod Http
pub mod Worker
pub mod Kv
mod Examples
