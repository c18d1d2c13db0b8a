-- ===== src/Chord/CipherLaws.antt =====
-- Encryption in Lab3_Chord/chord.go and its inverse.
use tda596labs.Base.{
  Bool-cases, length, ok, panic, ℕ, zero, suc, ◌<◌, ◌≡◌, refl, inl, inr, true, Option, none, some,
  [], ◌∷◌, ◌++◌, arith,
}
use tda596labs.Chord.Types.{Bytes}
use tda596labs.Chord.Cipher.{Aead, IsSound, done, cut_at, encrypt, decrypt}

cut_at-length : (xs ys : Bytes) → cut_at (length xs) (xs ++ ys) ≡ ok (xs, ys)
unfolding cut_at
cut_at-length [] ys = refl
cut_at-length (x ∷ xs) ys = rw (cut_at-length xs ys) refl

cut_at-short : (n : ℕ) (xs : Bytes) → length xs < n → cut_at n xs ≡ panic
unfolding cut_at
cut_at-short zero xs h = absurd (omega arith)
cut_at-short (suc n) [] h = refl
cut_at-short (suc n) (x ∷ xs) h = rw (cut_at-short n xs (omega arith)) refl

-- What `encrypt` returns without an error, `decrypt` turns back into the content under the same key.
pub decrypt-encrypt :
    (aead : Aead) (random : Option Bytes) (content box enc_key : Bytes)
    → IsSound aead
    → ((nonce : Bytes) → random ≡ some nonce → length nonce ≡ aead.nonce_size)
    → encrypt aead random content enc_key ≡ done box
    → decrypt aead box enc_key ≡ ok (done content)
unfolding encrypt decrypt
decrypt-encrypt aead random content box enc_key s n e =
    elim (Bool-cases (aead.new_cipher enc_key)) [
      | inr a ↦ absurd (cc (rw a at e))
      | inl a ↦ elim (Bool-cases (aead.new_gcm enc_key)) [
        | inr b ↦ absurd (cc (rw (a, b) at e))
        | inl b ↦ opened a b random n e
      ]
    ]
  where
    opened :
        aead.new_cipher enc_key ≡ true
        → aead.new_gcm enc_key ≡ true
        → (random : Option Bytes)
        → ((nonce : Bytes) → random ≡ some nonce → length nonce ≡ aead.nonce_size)
        → encrypt aead random content enc_key ≡ done box
        → decrypt aead box enc_key ≡ ok (done content)
    opened a b none n e = absurd (cc (rw (a, b) at e))
    opened a b (some nonce) n e =
        let same_box : box ≡ nonce ++ aead.seal enc_key nonce content =
          ground (arith, rw (a, b) at e) in
        rw
          (
            same_box,
            a,
            b,
            ← n nonce refl,
            cut_at-length nonce (aead.seal enc_key nonce content),
            s.opens enc_key nonce content,
          )
          refl

-- A box that is shorter than a nonce makes `decrypt` panic, if the key is accepted.
pub decrypt_short :
    (aead : Aead) (box enc_key : Bytes)
    → aead.new_cipher enc_key ≡ true
    → aead.new_gcm enc_key ≡ true
    → length box < aead.nonce_size
    → decrypt aead box enc_key ≡ panic
unfolding decrypt
decrypt_short aead box enc_key a b h = rw (a, b, cut_at-short aead.nonce_size box h) refl
