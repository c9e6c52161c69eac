-- ===== src/Base/BlockBase.antt =====
-- packages/base/src/blockBase.ts, `class BlockBase`.
use gny.Prelude.{
  ℕ, ◌-◌, String, ◌≡◌, refl, ap, ◌∙◌, Bool, true, false, Option, none, some, List, [], ◌∷◌, ◌++◌,
  arith, ltb, if◌then◌else◌, nat_eq, string_eq, option_eq, length, take, concat, length-append,
}
use gny.Prelude.Int.{int_eq}
use mathlib.Core.List.{append-nil}
use gny.Interfaces.{Transaction, Block, KeyPair}
use gny.Base.Platform.{Platform, IsKeyPair, IsHex}
use gny.Base.Consensus.{or_false}

module _ (p : Platform) where
  open p use {sha256, from_hex, to_hex, utf8, int32_le, int64_le, sign, verify}

  -- The bytes of the fields before the signature; `'0'` stands for a previous block that is missing.
  head_bytes : Block → List ℕ
  head_bytes b = concat (
      int32_le b.version
      ∷ int32_le b.timestamp
      ∷ int64_le b.height
      ∷ int32_le b.count
      ∷ int64_le b.fees
      ∷ int64_le b.reward
      ∷ utf8 b.delegate
      ∷ utf8 (elim b.prev_block_id [ none ↦ "0" | some id ↦ id ])
      ∷ from_hex b.payload_hash
      ∷ [])

  signature_bytes : Option String → List ℕ
  signature_bytes none = []
  signature_bytes (some signature) = from_hex signature

  -- `getBytes(block)`
  unfoldable pub get_bytes : Block → List ℕ
  unfolding head_bytes signature_bytes
  get_bytes b = head_bytes b ++ signature_bytes b.signature

  -- `calculateHash(block)`
  abbrev pub calculate_hash : Block → List ℕ
  calculate_hash b = sha256 (get_bytes b)

  -- `getId(block)`
  abbrev pub get_id : Block → String
  get_id b = to_hex (sha256 (get_bytes b))

  -- `sign(block, keypair)`
  abbrev pub sign_block : Block → KeyPair → String
  sign_block b keypair = to_hex (sign (calculate_hash b) keypair.private_key)

  -- `verifySignature(block)`: all but the last 64 bytes are hashed, and fewer bytes than that, or a
  -- signature that is missing, make it throw and fail.
  unfoldable pub verify_signature : Block → Bool
  verify_signature b =
      let bytes = get_bytes b in
      if ltb (length bytes) 64 then false else elim b.signature [
        | none ↦ false
        | some signature ↦ or_false p (
            verify (sha256 (take (length bytes - 64) bytes)) (from_hex signature)
              (from_hex b.delegate))
      ]

  -- A block with a signature in place.
  abbrev signed : Block → KeyPair → Block
  signed b keypair = record b { signature = some (sign_block b keypair) }

  take-length : (xs ys : List ℕ) → take (length xs) (xs ++ ys) ≡ xs
  take-length [] ys = refl
  take-length (x ∷ xs) ys = ap (λ r. x ∷ r) (take-length xs ys)

  take-append :
      (xs ys : List ℕ)
      → length ys ≡ 64
      → (ltb (length (xs ++ ys)) 64 ≡ false) × (take (length (xs ++ ys) - 64) (xs ++ ys) ≡ xs)
  take-append xs ys sized =
      let left : length (xs ++ ys) - 64 ≡ length xs = omega (arith, length-append xs ys) in
      (ground (arith, length-append xs ys), rw left (take-length xs ys))

  get_bytes-unsigned : (b : Block) → b.signature ≡ none → get_bytes b ≡ head_bytes b
  unfolding get_bytes
  get_bytes-unsigned b e = rw (e, signature_bytes) (append-nil (head_bytes b))

  get_bytes-signed :
      (b : Block) (keypair : KeyPair)
      → IsHex p
      → b.signature ≡ none
      → get_bytes (signed b keypair)
        ≡ head_bytes b ++ sign (sha256 (head_bytes b)) keypair.private_key
  get_bytes-signed b keypair hex unsigned =
      let hash = calculate_hash b in
      let e : get_bytes (signed b keypair)
          ≡ head_bytes b ++ from_hex (to_hex (sign hash keypair.private_key)) =
        unfold get_bytes head_bytes signature_bytes in refl in
      e
      ∙ ap (λ r. head_bytes b ++ r) (hex.from_to (sign hash keypair.private_key))
      ∙ ap (λ r. head_bytes b ++ sign (sha256 r) keypair.private_key)
          (get_bytes-unsigned b unsigned)

  -- An unsigned block that is signed with the key pair of its delegate has a signature that verifies.
  pub sign-verify_signature :
      (b : Block) (keypair : KeyPair)
      → IsHex p
      → IsKeyPair p keypair
      → b.signature ≡ none
      → b.delegate ≡ to_hex keypair.public_key
      → verify_signature (record b { signature = some (sign_block b keypair) }) ≡ true
  unfolding verify_signature
  sign-verify_signature b keypair hex good unsigned own =
      let hash = sha256 (head_bytes b) in
      let signature = sign hash keypair.private_key in
      let cut = take-append (head_bytes b) signature (good.sized hash) in
      ground (
        arith,
        get_bytes-signed b keypair hex unsigned,
        get_bytes-unsigned b unsigned,
        cut,
        good.accepts hash,
        hex.from_to signature,
        hex.from_to keypair.public_key,
      )

  -- Neither the transactions nor the id are among the bytes.
  pub get_bytes-transactions :
      (b : Block) (ts : List Transaction) → get_bytes (record b { transactions = ts }) ≡ get_bytes b
  unfolding get_bytes head_bytes signature_bytes
  get_bytes-transactions b ts = refl

  pub get_bytes-id : (b : Block) (id : String) → get_bytes (record b { id = id }) ≡ get_bytes b
  unfolding get_bytes head_bytes signature_bytes
  get_bytes-id b id = refl

  pub verify_signature-transactions :
      (b : Block) (ts : List Transaction)
      → verify_signature (record b { transactions = ts }) ≡ verify_signature b
  unfolding verify_signature get_bytes head_bytes signature_bytes
  verify_signature-transactions b ts = refl

  pub verify_signature-id :
      (b : Block) (id : String) → verify_signature (record b { id = id }) ≡ verify_signature b
  unfolding verify_signature get_bytes head_bytes signature_bytes
  verify_signature-id b id = refl
