-- ===== src/Tests/Samples.antt =====
-- A small platform that has the documented behaviour, and data for it.
use gny.Prelude.{
  ℕ, zero, suc, ◌+◌, ◌%◌, String, ◌≡◌, refl, ap, ◌∙◌, Bool, true, false, ◌&&◌, none, some, List, [],
  ◌∷◌, arith, if◌then◌else◌, ◌==◌, nat_eq, string_eq, option_eq, take,
}
use gny.Prelude.Int.{ℤ, pos, int_eq}
use Prim.Native.Char.{code}
use gny.Interfaces.{Account, Block, Context, KeyPair, Transaction, ok}
use gny.Base.Platform.{Platform, IsHex, IsKeyPair}
use gny.Core.State.{State, LastBlock, initial_state}
use gny.Contract.Ledger.{Delegate, Tables}
use gny.Core.Transactions.{Runtime, Pending}
use gny.Pool.{empty}
use gny.Utils.LimitCache.{new}

abbrev replicate : ℕ → ℕ → List ℕ
replicate zero n = []
replicate (suc k) n = n ∷ replicate k n

-- Bytes as text: each in strokes, with a comma behind it.
abbrev strokes : ℕ → String → String
strokes zero rest = String.◌∷◌ "," rest
strokes (suc n) rest = String.◌∷◌ "1" (strokes n rest)

abbrev encode : List ℕ → String
encode [] = ""
encode (n ∷ ns) = strokes n (encode ns)

abbrev decode : ℕ → String → List ℕ
decode n String.[] = []
decode n (String.◌∷◌ c s) =
    let next = decode 0 s in
    let more = decode (n + 1) s in if code c == b',' then n ∷ next else more

decode-strokes : (n k : ℕ) (rest : String) → decode k (strokes n rest) ≡ (k + n) ∷ decode 0 rest
decode-strokes zero k rest = ap (λ m. m ∷ decode 0 rest) {x = k} (omega arith)
decode-strokes (suc n) k rest =
    decode-strokes n (k + 1) rest ∙ ap (λ m. m ∷ decode 0 rest) {x = k + 1 + n} (omega arith)

decode-encode : (bytes : List ℕ) → decode 0 (encode bytes) ≡ bytes
decode-encode [] = refl
decode-encode (n ∷ ns) =
    decode-strokes n 0 (encode ns)
    ∙ ap (λ m. m ∷ decode 0 (encode ns)) {x = 0 + n} {y = n} (omega arith)
    ∙ ap (λ rest. n ∷ rest) (decode-encode ns)

abbrev codes : String → List ℕ
codes String.[] = []
codes (String.◌∷◌ c s) = code c ∷ codes s

abbrev same_bytes : List ℕ → List ℕ → Bool
same_bytes [] [] = true
same_bytes [] (y ∷ ys) = false
same_bytes (x ∷ xs) [] = false
same_bytes (x ∷ xs) (y ∷ ys) = x == y && same_bytes xs ys

abbrev first : List ℕ → ℕ
first [] = 0
first (n ∷ ns) = n

abbrev pub platform : Platform
platform = record {
  sha256 = λ bytes. take 4 bytes;
  from_hex = decode 0;
  to_hex = encode;
  utf8 = codes;
  int32 = λ n. n % 256 ∷ [];
  int64 = λ n. n % 256 ∷ [];
  int32_le = λ n. n % 256 ∷ [];
  int64_le = λ n. n % 256 ∷ [];
  ip_to_long = λ s. 1;
  to_number = λ s. 2;
  sign = λ message key. replicate 64 (first key);
  verify = λ message signature key. ok (same_bytes signature (replicate 64 (first key)));
  seed_key_pair = λ seed. record { public_key = first seed ∷ []; private_key = first seed ∷ [] };
  ripemd160 = λ bytes. replicate 20 1;
  bs58_encode = encode;
  bs58_decode = λ s. ok (decode 0 s);
}

pub platform-IsHex : IsHex platform
platform-IsHex = record { from_to = decode-encode }

abbrev pub key_pair : KeyPair
key_pair = record { public_key = 7 ∷ []; private_key = 7 ∷ [] }

pub key_pair-IsKeyPair : IsKeyPair platform key_pair
key_pair-IsKeyPair = record { accepts = λ message. refl; sized = λ message. refl }

abbrev pub public_key : String
public_key = platform.to_hex key_pair.public_key

-- An address of twenty bytes.
abbrev pub bob : String
bob = String.◌∷◌ "G" (platform.to_hex (replicate 20 1))

abbrev pub payment : Transaction
payment = record {
  id = "payment";
  kind = 0;
  timestamp = 30;
  sender_id = "alice";
  sender_public_key = some public_key;
  fee = 10000000;
  signatures = [];
  second_signature = none;
  args = some "300,Gbob";
  message = none;
  height = none;
}

abbrev pub genesis : Block
genesis = record {
  id = "genesis";
  height = 4;
  version = 0;
  timestamp = 20;
  prev_block_id = some "before";
  count = 0;
  fees = 0;
  reward = 0;
  payload_hash = "";
  delegate = public_key;
  signature = none;
  transactions = [];
}

abbrev pub state : State
state = record initial_state { last_block = LastBlock.known genesis }

abbrev pub account : String → ℤ → Account
account address gny = record {
  address = address;
  username = none;
  gny = gny;
  public_key = none;
  second_public_key = none;
  is_delegate = false;
  is_locked = false;
  lock_height = 0;
  lock_amount = 0;
}

abbrev pub alice : Account
alice = account "alice" (pos 9000000000)

abbrev pub tables : Tables
tables = record {
  accounts = alice ∷ account "carol" (pos 50) ∷ [];
  delegates = [];
  votes = [];
  transfers = [];
  locks = [];
}

abbrev pub context : Context
context = record { trs = payment; block_height = pos 5; sender = alice }

-- The arguments of the one JSON text that occurs.
abbrev pub runtime : Runtime
runtime = record {
  platform = platform;
  json_args = λ text. "300" ∷ bob ∷ [];
  is_name = λ name. true;
  is_public_key = λ key. true;
  others = λ kind. none;
  now = 0;
}

abbrev pub pending : Pending
pending = record { pool = empty; failed = new 10; tables = tables; confirmed = [] }

abbrev pub dan : Delegate
dan = record {
  address = bob;
  username = "dan";
  tid = "t";
  public_key = some public_key;
  votes = pos 0;
  produced_blocks = pos 0;
  missed_blocks = pos 0;
  fees = pos 0;
  rewards = pos 0;
}
