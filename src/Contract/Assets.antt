-- ===== src/Contract/Assets.antt =====
-- packages/main/src/contract/uia.ts and smartdb/balance-manager.ts: assets that accounts issue, and the
-- balances in them. The regular expressions are tests on texts, and arguments have the types that the
-- contracts want. `registerIssuer` is left out: the issuers are rows that the tables hold.
use gny.Prelude.{
  ℕ, zero, suc, ◌+◌, ◌-◌, String, sym, Bool, false, not, ◌&&◌, ◌||◌, none, some, List, [], ◌∷◌,
  ◌++◌, arith, ltb, if◌then◌else◌, ◌==◌, nat_eq, string_eq, option_eq, is_some, option_beq, set,
  contains,
}
use gny.Prelude.Int.{ℤ, pos, ◌+ℤ◌, ◌-ℤ◌, ltb_ℤ, eqb_ℤ, int_eq}
use gny.Prelude.Map.{has}
use Prim.Native.Char.{Char, code}
use Prim.Native.String
pub mod Held
pub mod Backing
use gny.Prelude.Text.{utf16_length}
use gny.Interfaces.{Account, Context, Result, ok, err, ◌>>=◌, ◌>>◌, throw_if, or_throw}
use gny.Base.Platform.{Platform}
use gny.Base.Address.{is_address}
use gny.Contract.Ledger.{find_first, update_first}
use gny.Contract.Basic.{amount_of, Pattern}

-- `IAsset`
pub record Asset : Type 0 where
  pub name : String
  pub tid : String
  pub timestamp : ℕ
  pub maximum : ℕ
  pub precision : ℕ
  pub quantity : ℕ
  pub desc : String
  pub issuer_id : String

-- `IBalance`
pub record Balance : Type 0 where
  pub address : String
  pub currency : String
  pub balance : ℤ
  pub flag : ℕ

-- `IIssuer`, as far as it is read.
pub record Issuer : Type 0 where
  pub name : String
  pub issuer_id : String

-- `ITransfer`
pub record AssetTransfer : Type 0 where
  pub tid : String
  pub height : ℤ
  pub sender_id : String
  pub recipient_id : String
  pub recipient_name : String
  pub currency : String
  pub amount : ℕ
  pub timestamp : ℕ

pub record AssetTables : Type 0 where
  pub accounts : List Account
  pub issuers : List Issuer
  pub assets : List Asset
  pub balances : List Balance
  pub transfers : List AssetTransfer
  pub locks : List String

abbrev pub has_asset_name : String → Asset → Bool
has_asset_name name a = a.name == name

abbrev pub is_balance : String → String → Balance → Bool
is_balance address currency b = b.address == address && b.currency == currency

abbrev has_dot : String → Bool
has_dot String.[] = false
has_dot (String.◌∷◌ c s) = code c == b'.' || has_dot s

-- `getCurrencyFlag(currency)`
abbrev pub get_currency_flag : String → Result ℕ
get_currency_flag currency =
    if currency == "GNY"
    then ok 1
    else if has_dot currency
    then ok 2
    else err "wrong currency type or flag"

-- `get(address, currency)` of the BalanceManager
abbrev pub get_balance : String → String → List Balance → ℤ
get_balance address currency balances = elim (find_first (is_balance address currency) balances) [
  | none ↦ pos 0
  | some b ↦ b.balance
]

-- `increase(address, currency, amount)`
unfoldable pub increase_balance : String → String → ℤ → List Balance → Result (List Balance)
increase_balance address currency amount balances =
    if eqb_ℤ amount (pos 0)
    then ok balances
    else if is_some (find_first (is_balance address currency) balances)
    then ok (
        update_first (is_balance address currency) (λ b. record b { balance = b.balance +ℤ amount })
          balances)
    else (get_currency_flag currency >>= λ flag. ok (
        record { address = address; currency = currency; balance = amount; flag = flag }
        ∷ balances))

-- `transfer(currency, amount, from, to)`, by `decrease` and `increase`
unfoldable pub transfer_balance :
    String → ℕ → String → String → List Balance → Result (List Balance)
transfer_balance currency amount from to balances =
    increase_balance from currency (pos 0 -ℤ pos amount) balances
    >>= increase_balance to currency (pos amount)

unfoldable pub lock_asset : String → AssetTables → Result AssetTables
lock_asset name db =
    throw_if (contains db.locks name) "Lock name exists already"
    >> ok (record db { locks = name ∷ db.locks })

-- `registerAsset(symbol, desc, maximum, precision)`
unfoldable pub register_asset :
    Pattern → Context → String → String → String → ℕ → AssetTables → Result AssetTables
register_asset is_symbol c symbol desc maximum precision db =
    throw_if (not (is_symbol symbol)) "Invalid symbol"
    >> (throw_if (ltb 4096 (utf16_length desc)) "Invalid asset description"
        >> (throw_if (precision == 0) "Precision should be positive integer"
            >> (throw_if (ltb 16 precision) "Invalid asset precision"
                >> (amount_of maximum >>= λ most.
                    or_throw (find_first (λ i. i.issuer_id == c.sender.address) db.issuers)
                      "Account is not an issuer"
                    >>= λ issuer.
                        let full_name = String.◌++◌ issuer.name (String.◌++◌ "." symbol) in
                        lock_asset (String.◌++◌ "uia.registerAsset@" full_name) db >>= λ locked.
                        throw_if (is_some (find_first (has_asset_name full_name) locked.assets))
                          "Asset already exists"
                        >> ok (record locked {
                          assets =
                              record {
                                name = full_name;
                                tid = c.trs.id;
                                timestamp = c.trs.timestamp;
                                maximum = most;
                                precision = precision;
                                quantity = 0;
                                desc = desc;
                                issuer_id = c.sender.address;
                              }
                              ∷ locked.assets;
                        })))))

-- `issue(name, amount)`
unfoldable pub issue : Pattern → Context → String → String → AssetTables → Result AssetTables
issue is_currency c name text db =
    throw_if (not (is_currency name)) "Invalid currency"
    >> (amount_of text >>= λ amount. lock_asset (String.◌++◌ "uia.issue@" name) db >>= λ locked.
        or_throw (find_first (has_asset_name name) locked.assets) "Asset not exists" >>= λ asset.
        throw_if (not (asset.issuer_id == c.sender.address)) "Permission denied"
        >> (throw_if (ltb asset.maximum (asset.quantity + amount)) "Exceed issue limit"
            >> (increase_balance c.sender.address name (pos amount) locked.balances >>= λ balances.
                ok (record locked {
                  assets =
                      update_first (has_asset_name name)
                        (λ a. record a { quantity = asset.quantity + amount }) locked.assets;
                  balances = balances;
                }))))

-- The address that a recipient stands for, and its name in the row of the transfer.
abbrev pub recipient_address : Platform → String → List Account → Result (String × String)
recipient_address p recipient accounts =
    if is_address p recipient
    then ok (recipient, "")
    else (or_throw (find_first (λ a. option_beq a.username (some recipient)) accounts)
          "Recipient name not exist"
        >>= λ account. ok (account.address, recipient))

unfoldable pub create_asset_transfer : AssetTransfer → AssetTables → Result AssetTables
create_asset_transfer t db =
    throw_if (is_some (find_first (λ u. u.tid == t.tid) db.transfers)) "entity exists already"
    >> ok (record db { transfers = t ∷ db.transfers })

abbrev pub transferred : Context → String → ℕ → String → String → AssetTransfer
transferred c currency amount to name = record {
  tid = c.trs.id;
  height = c.block_height;
  sender_id = c.sender.address;
  recipient_id = to;
  recipient_name = name;
  currency = currency;
  amount = amount;
  timestamp = c.trs.timestamp;
}

-- `transfer(currency, amount, recipient)`
unfoldable pub transfer_asset :
    Platform → Context → String → String → String → AssetTables → Result AssetTables
transfer_asset p c currency text recipient db =
    throw_if (ltb 30 (utf16_length currency)) "Invalid currency"
    >> (throw_if (recipient == "" || ltb 50 (utf16_length recipient)) "Invalid recipient"
        >> (amount_of text >>= λ amount.
            throw_if
              (c.sender.address == recipient || option_beq c.sender.username (some recipient))
              "Invalid recipient"
            >> (throw_if (ltb_ℤ (get_balance c.sender.address currency db.balances) (pos amount))
                  "Insufficient balance"
                >> (recipient_address p recipient db.accounts >>= λ (to, name).
                    transfer_balance currency amount c.sender.address to db.balances >>= λ balances.
                    create_asset_transfer (transferred c currency amount to name)
                      (record db { balances = balances })))))
