-- ===== src/Base/Platform.antt =====
-- What the program takes from Node.js, sodium, bytebuffer and ip: hashes, signatures, byte encodings.
use gny.Prelude.{ℕ, String, ◌≡◌, Bool, true, List, nat_eq, string_eq, option_eq, length}
use gny.Prelude.Int.{int_eq}
use gny.Interfaces.{Result, KeyPair}

-- `sodium` may throw on keys or signatures of a wrong size, and `ip.toLong` and `Number` on no number
-- give some integer all the same.
pub record Platform : Type 0 where
  pub sha256 : List ℕ → List ℕ
  pub from_hex : String → List ℕ
  pub to_hex : List ℕ → String
  pub utf8 : String → List ℕ
  pub int32 : ℕ → List ℕ
  pub int64 : ℕ → List ℕ
  pub int32_le : ℕ → List ℕ
  pub int64_le : ℕ → List ℕ
  pub ip_to_long : String → ℕ
  pub to_number : String → ℕ
  -- `crypto_sign_detached`: data, private key.
  pub sign : List ℕ → List ℕ → List ℕ
  -- `crypto_sign_verify_detached`: data, signature, public key.
  pub verify : List ℕ → List ℕ → List ℕ → Result Bool
  -- `crypto_sign_seed_keypair`
  pub seed_key_pair : List ℕ → KeyPair
  pub ripemd160 : List ℕ → List ℕ
  pub bs58_encode : List ℕ → String
  -- `bs58.decode` throws on a character outside its alphabet.
  pub bs58_decode : String → Result (List ℕ)

-- The key pair's public key accepts what its private key signs, and a signature has 64 bytes.
pub record IsKeyPair (p : Platform) (kp : KeyPair) : Type 0 where
  pub accepts :
      (message : List ℕ)
      → p.verify message (p.sign message kp.private_key) kp.public_key ≡ Result.ok true
  pub sized : (message : List ℕ) → length (p.sign message kp.private_key) ≡ 64

-- Hexadecimal text is read back as the bytes that it was made of.
pub record IsHex (p : Platform) : Type 0 where
  pub from_to : (bytes : List ℕ) → p.from_hex (p.to_hex bytes) ≡ bytes
