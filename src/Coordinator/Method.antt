-- ===== src/Coordinator/Method.antt =====
-- The values of `type Method int` of Lab2_MapReduce/src/mr/rpc.go; a fresh reply has 0.
use tda596labs.Base.{ℕ}

abbrev pub unset : ℕ
unset = 0

abbrev pub map : ℕ
map = 1

abbrev pub reduce : ℕ
reduce = 2

abbrev pub wait : ℕ
wait = 3

abbrev pub nowork : ℕ
nowork = 5
