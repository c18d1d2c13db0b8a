-- ===== src/Chord/NodeSafety.antt =====
-- Every run of a node of Lab3_Chord stays within its tables.
use tda596labs.Chord.Types.{Chord}
