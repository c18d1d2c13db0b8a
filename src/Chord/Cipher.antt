-- ===== src/Chord/Cipher.antt =====
-- `encrypt` and `decrypt` of Lab3_Chord/chord.go over the standard library's AES and GCM.
-- What the code uses of crypto/aes and crypto/cipher: whether a key and a cipher are accepted, the
-- nonce's size, and sealing and opening a box.
use tda596labs.Base.{
  if◌then◌else◌, Outcome, ok, panic, ◌>>=◌, ℕ, zero, suc, ◌≡◌, Bool, not, Option, none, some, [],
  ◌∷◌, ◌++◌,
}
use tda596labs.Chord.Types.{Bytes}

pub record Aead : Type 0 where
  pub new_cipher : Bytes → Bool
  pub new_gcm : Bytes → Bool
  pub nonce_size : ℕ
  pub seal : Bytes → Bytes → Bytes → Bytes
  pub open_box : Bytes → Bytes → Bytes → Option Bytes

-- Opening gives back what was sealed with the same key and nonce.
pub record IsSound (aead : Aead) : Type 0 where
  pub opens :
      (key nonce plain : Bytes) → aead.open_box key nonce (aead.seal key nonce plain) ≡ some plain

-- Contents with an error or with none.
pub data Crypted : Type 0 where
  failed : Bytes → Crypted
  done : Bytes → Crypted

-- Go's `xs[:n]` and `xs[n:]` behind the panic if `n` is too large.
unfoldable pub cut_at : ℕ → Bytes → Outcome (Bytes × Bytes)
cut_at zero xs = ok ([], xs)
cut_at (suc n) [] = panic
cut_at (suc n) (x ∷ xs) = cut_at n xs >>= λ r. ok (x ∷ r.0, r.1)

module _ (aead : Aead) where
  -- `encrypt`; `random` is what `io.ReadFull(rand.Reader, nonce)` fills in, if it succeeds.
  unfoldable pub encrypt : Option Bytes → Bytes → Bytes → Crypted
  encrypt random content enc_key =
      if not (aead.new_cipher enc_key)
      then failed content
      else if not (aead.new_gcm enc_key)
      then failed content
      else elim random [
        | none ↦ failed content
        | some nonce ↦ done (nonce ++ aead.seal enc_key nonce content)
      ]

  -- `decrypt`: the nonce is cut off without a look at the length.
  unfoldable pub decrypt : Bytes → Bytes → Outcome Crypted
  decrypt content enc_key =
      let opened = cut_at aead.nonce_size content >>= λ r. elim (aead.open_box enc_key r.0 r.1) [
        | none ↦ ok (failed r.1)
        | some plain ↦ ok (done plain)
      ] in
      if not (aead.new_cipher enc_key)
      then ok (failed content)
      else if not (aead.new_gcm enc_key)
      then ok (failed content)
      else opened
