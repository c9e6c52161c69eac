-- ===== src/Base/Address.antt =====
-- packages/utils/src/address.ts: addresses of accounts.
use gny.Prelude.{
  ℕ, String, ◌≡◌, Bool, true, false, ◌&&◌, List, arith, ◌==◌, nat_eq, string_eq, option_eq, length,
}
use gny.Prelude.Int.{int_eq}
use Prim.Native.Char.{code}
use gny.Interfaces.{ok, err}
use gny.Base.Platform.{Platform}

module _ (p : Platform) where
  -- `generateAddress(publicKey)`: `PREFIX + …`, with a prefix of one character.
  unfoldable pub generate_address : String → String
  generate_address public_key =
      String.◌∷◌ "G" (p.bs58_encode (p.ripemd160 (p.sha256 (p.from_hex public_key))))

  -- `bs58.decode(address.slice(1))` has 20 bytes.
  abbrev decodes : String → Bool
  decodes rest = elim (p.bs58_decode rest) [ err _ ↦ false | ok bytes ↦ length bytes == 20 ]

  -- `isAddress(address)`, on a text.
  unfoldable pub is_address : String → Bool
  is_address String.[] = false
  is_address (String.◌∷◌ c rest) = decodes rest && code c == b'G'

  -- Where base58 is read back and the hash has its 20 bytes, the address of a public key is one.
  pub is_address-generate_address :
      ((bytes : List ℕ) → p.bs58_decode (p.bs58_encode bytes) ≡ ok bytes)
      → ((bytes : List ℕ) → length (p.ripemd160 bytes) ≡ 20)
      → (public_key : String) → is_address (generate_address public_key) ≡ true
  unfolding is_address generate_address
  is_address-generate_address back sized public_key =
      let hash = p.sha256 (p.from_hex public_key) in
      ground (arith, back (p.ripemd160 hash), sized hash)
