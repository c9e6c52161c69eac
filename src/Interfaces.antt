-- ===== src/Interfaces.antt =====
-- packages/interfaces/src/index.ts: the data of the chain. Heights, amounts and fees, which the source
-- keeps as decimal strings, are numbers; the arguments of a transaction are their JSON text.
use gny.Prelude.{
  ℕ, String, ◌≡◌, refl, ap, ◌∙◌, ◌⊎◌, inl, inr, Bool, true, false, Option, none, some, List, nat_eq,
  string_eq,
}
use gny.Prelude.Int.{ℤ}

-- `ITransaction`; an `UnconfirmedTransaction` has no height.
pub record Transaction : Type 0 where
  pub id : String
  pub kind : ℕ
  pub timestamp : ℕ
  pub sender_id : String
  pub sender_public_key : Option String
  pub fee : ℕ
  pub signatures : List String
  pub second_signature : Option String
  pub args : Option String
  pub message : Option String
  pub height : Option ℕ

pub record Signature : Type 0 where
  pub public_key : String
  pub signature : String

pub record ManyVotes : Type 0 where
  pub height : ℕ
  pub id : String
  pub signatures : List Signature

-- `IBlock`
pub record Block : Type 0 where
  pub id : String
  pub height : ℕ
  pub version : ℕ
  pub timestamp : ℕ
  pub prev_block_id : Option String
  pub count : ℕ
  pub fees : ℕ
  pub reward : ℕ
  pub payload_hash : String
  pub delegate : String
  pub signature : Option String
  pub transactions : List Transaction

pub record NewBlockMessage : Type 0 where
  pub id : String
  pub height : ℕ
  pub prev_block_id : Option String

pub record BlockPropose : Type 0 where
  pub address : String
  pub generator_public_key : String
  pub hash : String
  pub height : ℕ
  pub id : String
  pub signature : String
  pub timestamp : ℕ

-- `ProcessBlockOptions`
pub record Options : Type 0 where
  pub is_local : Bool
  pub broadcast : Bool
  pub votes : Option ManyVotes

-- `IAccount`. The flags `isDelegate` and `isLocked` are 0 or 1 in the source.
pub record Account : Type 0 where
  pub address : String
  pub username : Option String
  pub gny : ℤ
  pub public_key : Option String
  pub second_public_key : Option String
  pub is_delegate : Bool
  pub is_locked : Bool
  pub lock_height : ℕ
  pub lock_amount : ℕ

-- `Context`: a transaction, the height of its block, and its sender.
pub record Context : Type 0 where
  pub trs : Transaction
  pub block_height : ℤ
  pub sender : Account

pub record KeyPair : Type 0 where
  pub public_key : List ℕ
  pub private_key : List ℕ

-- A call that may throw: `err` carries the message.
pub data Result {ℓ} (A : Type ℓ) : Type ℓ where
  ok : A → Result A
  err : String → Result A

-- `if (test) throw new Error(message)`, or a contract's `return message`.
abbrev pub throw_if : Bool → String → Result (Unit {0})
throw_if true message = err message
throw_if false message = ok tt

-- What stands behind a call runs only if the call did not throw.
infixl 5 ◌>>=◌ ◌>>◌
abbrev pub ◌>>=◌ {ℓ κ} : {A : Type ℓ} {B : Type κ} → Result A → (A → Result B) → Result B
err message >>= next = err message
ok value >>= next = next value

abbrev pub ◌>>◌ {ℓ} : {B : Type ℓ} → Result (Unit {0}) → Result B → Result B
check >> next = check >>= λ _. next

abbrev pub or_throw {ℓ} : {A : Type ℓ} → Option A → String → Result A
or_throw none message = err message
or_throw (some a) message = ok a

-- A chain that succeeds, from its parts and back to them.
pub bind_intro {ℓ κ} :
    {A : Type ℓ} {B : Type κ} (m : Result A) (f : A → Result B) (a : A) (r : Result B)
    → m ≡ ok a
    → f a ≡ r
    → (m >>= f) ≡ r
bind_intro m f a r e h = ap (λ x. x >>= f) e ∙ h

pub guard_intro {ℓ} :
    {B : Type ℓ} (test : Bool) (message : String) (k r : Result B)
    → test ≡ false
    → k ≡ r
    → (throw_if test message >> k) ≡ r
guard_intro test message k r e h = ap (λ b. throw_if b message >> k) e ∙ h

pub bind_ok {ℓ κ} :
    {A : Type ℓ} {B : Type κ} (m : Result A) (f : A → Result B) (b : B)
    → (m >>= f) ≡ ok b
    → (a : A) × (m ≡ ok a) × (f a ≡ ok b)
bind_ok (ok a) f b h = (a, refl, h)
bind_ok (err e) f b h = cc

pub guard_ok {ℓ} :
    {B : Type ℓ} (test : Bool) (message : String) (k : Result B) (b : B)
    → (throw_if test message >> k) ≡ ok b
    → (test ≡ false) × (k ≡ ok b)
guard_ok true message k b h = cc
guard_ok false message k b h = (refl, h)

pub ok_inj {ℓ} : {A : Type ℓ} {a b : A} → ok a ≡ ok b → a ≡ b
ok_inj e = cc

pub or_throw_ok {ℓ κ} :
    {A : Type ℓ} {B : Type κ} (o : Option A) (message : String) (f : A → Result B) (b : B)
    → (or_throw o message >>= f) ≡ ok b
    → (a : A) × (o ≡ some a) × (f a ≡ ok b)
or_throw_ok none message f b h = cc
or_throw_ok (some a) message f b h = (a, refl, h)

pub Result-cases {ℓ} :
    {A : Type ℓ} (r : Result A) → ((a : A) × (r ≡ ok a)) ⊎ ((message : String) × (r ≡ err message))
Result-cases (ok a) = inl (a, refl)
Result-cases (err e) = inr (e, refl)

-- Calls on a state that a throw does not take back: the second is made if the first does not throw.
abbrev pub and_then {ℓ κ} :
    {A : Type ℓ} {S : Type κ}
    → Result A × S
    → (A → S → Result (Unit {0}) × S)
    → Result (Unit {0}) × S
and_then (err message, s) next = (err message, s)
and_then (ok a, s) next = next a s
