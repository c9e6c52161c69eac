-- ===== src/Base/Consensus.antt =====
-- packages/base/src/consensusBase.ts, `class ConsensusBase`.
use gny.Prelude.{
  ℕ, suc, ◌*◌, String, ◌≡◌, refl, ap, inl, inr, Bool, true, false, not, Option, none, some, List,
  [], ◌∷◌, ◌++◌, map, arith, eq_iff, ltb, leb, if◌then◌else◌, ◌==◌, nat_eq, string_eq, option_eq,
  length, All,
}
use gny.Prelude.Int.{int_eq}
use gny.Prelude.Text.{split}
use gny.Utils.Constants.{delegates_count}
use gny.Interfaces.{
  Signature, ManyVotes, Block, BlockPropose, KeyPair, Result, ok, err, ◌>>=◌, ◌>>◌, throw_if,
  Result-cases,
}
use gny.Base.Platform.{Platform, IsKeyPair, IsHex}

-- `signatures.length > (DELEGATES * 2) / 3`, a division of floating-point numbers.
abbrev pub has_enough_votes : Option ManyVotes → Bool
has_enough_votes none = false
has_enough_votes (some votes) = ltb (delegates_count * 2) (length votes.signatures * 3)

-- `hasEnoughVotesRemote`
abbrev pub has_enough_votes_remote : ManyVotes → Bool
has_enough_votes_remote votes = leb 6 (length votes.signatures)

module _ (p : Platform) where
  open p use {sha256, from_hex, to_hex, utf8, int32, int64, ip_to_long, to_number, sign, verify}

  -- `calculateVoteHash(height, id)`
  abbrev pub calculate_vote_hash : ℕ → String → List ℕ
  calculate_vote_hash height id = sha256 (int64 height ++ utf8 id)

  vote_of : List ℕ → KeyPair → Signature
  vote_of hash kp = record {
    public_key = to_hex kp.public_key;
    signature = to_hex (sign hash kp.private_key);
  }

  -- `createVotes(keypairs, heightAndId)`
  unfoldable pub create_votes : List KeyPair → ℕ → String → ManyVotes
  unfolding vote_of
  create_votes keypairs height id = record {
    height = height;
    id = id;
    signatures = map (vote_of (calculate_vote_hash height id)) keypairs;
  }

  -- `try { return verify(…) } catch { return false }`
  abbrev pub or_false : Result Bool → Bool
  or_false (ok b) = b
  or_false (err _) = false

  -- `verifyVote(height, id, vote)`
  unfoldable pub verify_vote : ℕ → String → Signature → Bool
  verify_vote height id vote =
      or_false (
        verify (calculate_vote_hash height id) (from_hex vote.signature) (from_hex vote.public_key))

  -- The two integers that `ip.toLong` and `Number` make of `host:port`, or an assertion that fails.
  address_bytes : List String → Result (List ℕ)
  address_bytes (host ∷ port ∷ []) = ok (int32 (ip_to_long host) ++ int32 (to_number port))
  address_bytes parts = err "assertion failed"

  -- `calculateProposeHash`, and `getProposeHash`, which is the same code.
  unfoldable pub calculate_propose_hash : ℕ → String → ℕ → String → String → Result (List ℕ)
  unfolding address_bytes
  calculate_propose_hash height id timestamp generator_public_key address = do
    place ← address_bytes (split b':' address)
    ok (
        sha256 (
          int64 height
          ++ (utf8 id ++ (from_hex generator_public_key ++ (int32 timestamp ++ place)))))

  -- `createPropose(keypair, block, address)`
  unfoldable pub create_propose : KeyPair → Block → String → Result BlockPropose
  create_propose keypair block address = do
    throw_if (not (to_hex keypair.public_key == block.delegate)) "delegate public keys do not match"
    hash ← calculate_propose_hash block.height block.id block.timestamp block.delegate address
    ok (record {
      address = address;
      generator_public_key = block.delegate;
      hash = to_hex hash;
      height = block.height;
      id = block.id;
      signature = to_hex (sign hash keypair.private_key);
      timestamp = block.timestamp;
    })

  -- `acceptPropose(propose)`
  unfoldable pub accept_propose : BlockPropose → Bool
  accept_propose propose =
      elim (calculate_propose_hash propose.height propose.id propose.timestamp
        propose.generator_public_key propose.address) [
          | err _ ↦ false
          | ok hash ↦
              if not (propose.hash == to_hex hash)
              then false
              else or_false
                  (verify hash (from_hex propose.signature) (from_hex propose.generator_public_key))
        ]

  vote_of-verify_vote :
      (kp : KeyPair) (height : ℕ) (id : String)
      → IsKeyPair p kp
      → IsHex p
      → verify_vote height id (vote_of (calculate_vote_hash height id) kp) ≡ true
  unfolding vote_of verify_vote
  vote_of-verify_vote kp height id good hex = rw (
    hex.from_to (sign (calculate_vote_hash height id) kp.private_key),
    hex.from_to kp.public_key,
    good.accepts (calculate_vote_hash height id),
  )

  -- The votes that a node makes for a height and an id carry this height and this id, there is one for each of
  -- its key pairs, and each of them verifies against the given height and id.
  pub create_votes_verify :
      (keypairs : List KeyPair) (height : ℕ) (id : String)
      → IsHex p
      → All (IsKeyPair p) keypairs
      → let votes = create_votes keypairs height id in
        (votes.height ≡ height)
        × (votes.id ≡ id)
        × (length votes.signatures ≡ length keypairs)
        × All (λ vote. verify_vote height id vote ≡ true) votes.signatures
  unfolding create_votes
  create_votes_verify [] height id hex good = (refl, refl, refl, tt)
  create_votes_verify (kp ∷ keypairs) height id hex (good, rest) =
      let (_, _, same, verified) = create_votes_verify keypairs height id hex rest in
      (refl, refl, ap suc same, (vote_of-verify_vote kp height id good hex, verified))

  abbrev hash_of : Block → String → Result (List ℕ)
  hash_of block address =
      calculate_propose_hash block.height block.id block.timestamp block.delegate address

  -- A propose that a node creates for its own block and with a well-formed address is accepted.
  pub create_propose-accept_propose :
      (kp : KeyPair) (block : Block) (address : String) (propose : BlockPropose)
      → IsHex p
      → IsKeyPair p kp
      → create_propose kp block address ≡ ok propose
      → accept_propose propose ≡ true
  unfolding create_propose accept_propose
  create_propose-accept_propose kp block address propose hex good made =
      elim (Result-cases (hash_of block address)) [
        | inl (hash, e) ↦ ground (
          arith,
          eq_iff (to_hex kp.public_key) block.delegate,
          eq_iff (to_hex hash) (to_hex hash),
          good.accepts hash,
          hex.from_to (sign hash kp.private_key),
          hex.from_to kp.public_key,
        )
        | inr (message, e) ↦ ground arith
      ]
