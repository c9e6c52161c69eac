-- ===== src/Base/TransactionBase/Accepted.antt =====
-- A transaction that `create` makes passes `verify`; what its bytes do not tell apart.
use gny.Prelude.{
  ℕ, ◌≤◌, String, ◌≡◌, ap, Bool, true, false, Option, none, some, List, ◌++◌, arith, nat_eq,
  string_eq, option_eq,
}
use gny.Prelude.Int.{ℤ, pos, ◌≤ℤ◌, int_eq}
use Prim.Native.String
use mathlib.Core.List.{append_assoc}
use gny.Utils.Constants.{min_fee}
use gny.Utils.Slots.{get_slot_number, get_epoch_time}
use gny.Interfaces.{Transaction, Account, KeyPair}
use gny.Base.Platform.{Platform, IsKeyPair, IsHex}
use gny.Base.TransactionBase.{
  unsigned, get_bytes, get_id, verify_bytes, verify_normal_signature, verify_transaction, create,
}

module _ (p : Platform) (hex : IsHex p) where
  open p use {sha256, from_hex, to_hex, sign, verify}

  verify_bytes-sign :
      (kp : KeyPair) (bytes : List ℕ)
      → IsKeyPair p kp
      → verify_bytes p bytes
          (to_hex kp.public_key)
          (some (to_hex (sign (sha256 bytes) kp.private_key)))
        ≡ true
  unfolding verify_bytes
  verify_bytes-sign kp bytes good = rw (
    hex.from_to (sign (sha256 bytes) kp.private_key),
    hex.from_to kp.public_key,
    good.accepts (sha256 bytes),
  )

  -- The account has a second key exactly if the transaction is signed with it.
  abbrev pub MatchesSecond : Account → Option KeyPair → Type 0
  MatchesSecond sender none = sender.second_public_key ≡ none
  MatchesSecond sender (some second) =
      (sender.second_public_key ≡ some (to_hex second.public_key)) × IsKeyPair p second

  -- A transaction that is created with the sender's key pairs, at an epoch time whose slot is not after
  -- that of the clock, with at least the fee of its type, is accepted, whatever its message and
  -- arguments are.
  pub create-verify_transaction :
      (now epoch_time kind fee least : ℕ) (kp : KeyPair) (second : Option KeyPair)
      (message args : Option String) (block_height : ℤ) (sender : Account)
      → IsKeyPair p kp
      → MatchesSecond sender second
      → min_fee kind ≡ some least
      → least ≤ fee
      → get_slot_number (pos epoch_time) ≤ℤ get_slot_number (get_epoch_time now)
      → verify_transaction p now (record {
        trs = create p epoch_time kind kp message args fee second;
        block_height = block_height;
        sender = sender;
      })
        ≡ none
  unfolding verify_transaction create verify_normal_signature get_bytes
  create-verify_transaction now epoch_time kind fee least kp none message args h sender good m mf le
        slot =
      let bytes = get_bytes p (unsigned p epoch_time kind kp message args fee) true true in
      ground (arith, verify_bytes-sign kp bytes good)
  create-verify_transaction now epoch_time kind fee least kp (some second) message args h sender
        good m mf le slot =
      let bytes = get_bytes p (unsigned p epoch_time kind kp message args fee) true true in
      ground (arith, verify_bytes-sign kp bytes good, verify_bytes-sign second bytes m.1)

module _ (p : Platform) (t : Transaction) (m a : String) where
  -- The two transactions: message and arguments apart, or joined in the message.
  abbrev pub apart : Transaction
  apart = record t { message = some m; args = some a }

  abbrev pub joined : Transaction
  joined = record t { message = some (String.◌++◌ m a); args = none }

  get_bytes-joined :
      p.utf8 (String.◌++◌ m a) ≡ p.utf8 m ++ p.utf8 a
      → (skip second : Bool) → get_bytes p apart skip second ≡ get_bytes p joined skip second
  unfolding get_bytes
  get_bytes-joined e skip second = simp (e, append_assoc)

  -- The bytes of a transaction do not say where its message ends and its arguments begin: one with
  -- both has the bytes, with or without signatures, and so the id, of the one whose message is the
  -- two texts joined and that has no arguments, since UTF-8 encodes a joined text by joining the
  -- codes.
  pub get_bytes_ambiguous :
      p.utf8 (String.◌++◌ m a) ≡ p.utf8 m ++ p.utf8 a
      → ((skip second : Bool) → get_bytes p apart skip second ≡ get_bytes p joined skip second)
        × (get_id p apart ≡ get_id p joined)
  get_bytes_ambiguous e =
      (get_bytes-joined e, ap (λ bytes. p.to_hex (p.sha256 bytes)) (get_bytes-joined e false false))
