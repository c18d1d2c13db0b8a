-- ===== src/Chord/CommandLineLaws.antt =====
-- `parseInput` of Lab3_Chord/chord.go returns and keeps the node.
use tda596labs.Base.{length, ◌≤◌, String, ◌≢◌, ◌⊎◌, Option, none, some}
use tda596labs.Chord.Types.{fileok, Chord, RetreiveFileResponse}
use tda596labs.Chord.Cipher.{Aead}
use Prim.Native.String.{◌++◌ as str_append}

-- An answer with a file has at least the bytes of a nonce.
abbrev pub LongAnswer : Aead → Option RetreiveFileResponse → Type 0
LongAnswer aead none = Unit
LongAnswer aead (some r) = (r.file_status ≢ fileok) ⊎ (aead.nonce_size ≤ length r.file_content)
