-- ===== src/Chord.antt =====
-- The Chord node: Lab3_Chord/chord.go, chordRPC.go, chordUtil.go, chordTypes.go and rpc.go.
pub mod Ring
pub mod Types
pub mod Lookup
pub mod LookupLaws
pub mod Membership
pub mod MembershipLaws
pub mod Repair
pub mod RepairLaws
pub mod FingerLaws
pub mod Calls
pub mod Files
pub mod FileLaws
pub mod ReassignLaws
pub mod CallLaws
pub mod NodeRuns
pub mod NodeInvariant
pub mod HandlerSafety
pub mod NodeSafety
pub mod Cipher
pub mod CipherLaws
pub mod Commands
pub mod CommandLaws
pub mod CommandRuns
pub mod CommandLine
pub mod CommandLineLaws
pub mod StoredFiles
pub mod Startup
pub mod StartupLaws
pub mod Transfers
pub mod TransferLaws
