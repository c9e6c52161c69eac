-- ===== src/Base/TransactionBase.antt =====
-- packages/base/src/transactionBase.ts, `class TransactionBase`. An optional text that is empty counts as
-- absent in the source, and is `none` here.
use gny.Prelude.{
  ℕ, zero, suc, String, ap, Bool, true, false, not, Option, none, some, List, [], ◌∷◌, map, arith,
  ltb, if◌then◌else◌, nat_eq, string_eq, option_eq, is_some, get_elem?, concat,
}
use gny.Prelude.Int.{ℤ, pos, ltb_ℤ, int_eq}
use gny.Prelude.Map.{has}
pub mod Accepted
use gny.Utils.Constants.{min_fee}
use gny.Utils.Slots.{get_slot_number, get_epoch_time}
use gny.Interfaces.{Transaction, Account, Context, KeyPair, Result, ok, err}
use gny.Base.Platform.{Platform}
use gny.Base.Address.{generate_address}
use gny.Base.Consensus.{or_false}

-- `turnIntoFullTransaction(unconfirmed, height)`
abbrev pub turn_into_full_transaction : Transaction → ℕ → Transaction
turn_into_full_transaction t h = record t { height = some h }

module _ (p : Platform) where
  open p use {sha256, from_hex, to_hex, utf8, int32_le, int64_le, sign, verify}

  -- `if (text) byteBuffer.writeString(text)`
  abbrev optional_text : Option String → List ℕ
  optional_text none = []
  optional_text (some s) = utf8 s

  abbrev optional_hex : Option String → List ℕ
  optional_hex none = []
  optional_hex (some s) = from_hex s

  -- `getBytes(transaction, skipSignature, skipSecondSignature)`
  unfoldable pub get_bytes : Transaction → Bool → Bool → List ℕ
  get_bytes t skip_signature skip_second_signature = concat (
      int32_le t.kind
      ∷ int32_le t.timestamp
      ∷ int64_le t.fee
      ∷ utf8 t.sender_id
      ∷ optional_text t.message
      ∷ optional_text t.args
      ∷ (if skip_signature then [] else concat (map from_hex t.signatures))
      ∷ (if skip_second_signature then [] else optional_hex t.second_signature)
      ∷ [])

  -- `getHash`, and `getId`
  abbrev pub get_hash : Transaction → List ℕ
  get_hash t = sha256 (get_bytes t false false)

  abbrev pub get_id : Transaction → String
  get_id t = to_hex (get_hash t)

  -- `sign(keypair, transaction)`
  abbrev pub sign_transaction : KeyPair → Transaction → String
  sign_transaction keypair t = to_hex (sign (sha256 (get_bytes t true true)) keypair.private_key)

  -- `verifyBytes(bytes, publicKey, signature)`; a signature that is missing makes it throw, and fail.
  unfoldable pub verify_bytes : List ℕ → String → Option String → Bool
  verify_bytes bytes public_key none = false
  verify_bytes bytes public_key (some signature) =
      or_false p (verify (sha256 bytes) (from_hex signature) (from_hex public_key))

  -- `verifyNormalSignature(transaction, sender, bytes)`: `none` where the signatures are right.
  unfoldable pub verify_normal_signature : Transaction → String → Account → List ℕ → Option String
  verify_normal_signature t sender_public_key sender bytes =
      if not (verify_bytes bytes sender_public_key (get_elem? t.signatures 0))
      then some "Invalid signature"
      else elim sender.second_public_key [
        | none ↦
            if is_some t.second_signature then some "Second password was not registered" else none
        | some second ↦
            if not (is_some t.second_signature)
            then some "Second signature not provided"
            else if not (verify_bytes bytes second t.second_signature)
            then some "Invalid second signature"
            else none
      ]

  abbrev check_signature : Transaction → Account → Option String
  check_signature t sender = elim t.sender_public_key [
    | none ↦ some "Failed to verify signature"
    | some sender_public_key ↦
        verify_normal_signature t sender_public_key sender (get_bytes t true true)
  ]

  -- `verify(context)`, with the clock as an argument.
  unfoldable pub verify_transaction : ℕ → Context → Option String
  verify_transaction now c =
      if ltb_ℤ (get_slot_number (get_epoch_time now)) (get_slot_number (pos c.trs.timestamp))
      then some "Invalid transaction timestamp"
      else elim (min_fee c.trs.kind) [
        | none ↦ some "Fee calculator not found"
        | some least ↦
            if ltb c.trs.fee least then some "Fee not enough" else check_signature c.trs c.sender
      ]

  -- What `create` signs, before any signature is in it.
  abbrev unsigned : ℕ → ℕ → KeyPair → Option String → Option String → ℕ → Transaction
  unsigned epoch_time kind keypair message args fee = record {
    id = "";
    kind = kind;
    timestamp = epoch_time;
    sender_id = generate_address p (to_hex keypair.public_key);
    sender_public_key = some (to_hex keypair.public_key);
    fee = fee;
    signatures = [];
    second_signature = none;
    args = args;
    message = message;
    height = none;
  }

  abbrev second_sign : Option KeyPair → Transaction → Transaction
  second_sign none t = t
  second_sign (some second) t = record t { second_signature = some (sign_transaction second t) }

  -- `create(data)`, at an epoch time.
  unfoldable pub create :
      ℕ → ℕ → KeyPair → Option String → Option String → ℕ → Option KeyPair → Transaction
  create epoch_time kind keypair message args fee second =
      let t = unsigned epoch_time kind keypair message args fee in
      let signed = record t { signatures = sign_transaction keypair t ∷ [] } in
      let both = second_sign second signed in record both { id = get_id both }
