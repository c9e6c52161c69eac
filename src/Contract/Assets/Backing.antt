-- ===== src/Contract/Assets/Backing.antt =====
-- packages/main/src/contract/uia.ts: what is issued of an asset is what the accounts hold of it.
use gny.Prelude.{
  ℕ, ◌+◌, ◌≤◌, String, ◌≡◌, refl, sym, ap, ◌∙◌, Bool, true, false, not, Option, none, some, List,
  [], ◌∷◌, arith, eq_iff, ltb, if◌then◌else◌, ◌==◌, nat_eq, string_eq, option_eq, is_some, contains,
}
use gny.Prelude.Int.{ℤ, pos, ◌+ℤ◌, int_laws, int_eq}
use mathlib.Core.Path.{subst}
use Prim.Native.String
use gny.Prelude.Text.{utf16_length}
use gny.Interfaces.{Context, ok, ok_inj, bind_ok, guard_ok, or_throw_ok}
use gny.Contract.Ledger.{find_first, update_first}
use gny.Contract.Basic.{amount_of, Pattern}
use gny.Contract.Assets.{
  Asset, Balance, AssetTables, has_asset_name, increase_balance, lock_asset, register_asset, issue,
}
use gny.Contract.Assets.Held.{held, share, share_none, held-increase_balance}

-- An asset's quantity is held in full and within its maximum; of what is no asset nothing is held.
abbrev pub Backed : Option Asset → ℤ → Type 0
Backed none n = n ≡ pos 0
Backed (some a) n = (n ≡ pos a.quantity) × (a.quantity ≤ a.maximum)

abbrev pub IsBacked : AssetTables → Type 0
IsBacked db =
    (name : String) → Backed (find_first (has_asset_name name) db.assets) (held name db.balances)

set_quantity : ℕ → Asset → Asset
set_quantity n a = record a { quantity = n }

changed : Bool → ℕ → Option Asset → Option Asset
changed b n none = none
changed true n (some a) = some (set_quantity n a)
changed false n (some a) = some a

find_first-changed :
    (name name' : String) (n : ℕ) (assets : List Asset)
    → find_first (has_asset_name name') (update_first (has_asset_name name) (set_quantity n) assets)
      ≡ changed (name == name') n (find_first (has_asset_name name') assets)
unfolding changed set_quantity
find_first-changed name name' n [] = refl
find_first-changed name name' n (a ∷ assets) = ground (
  arith,
  find_first-changed name name' n assets,
  eq_iff a.name name,
  eq_iff a.name name',
  eq_iff name name',
)

some_inj : {A : Type 0} {a b : A} → some a ≡ some b → a ≡ b
some_inj e = cc

pos_add : (m n : ℕ) → pos m +ℤ pos n ≡ pos (m + n)
pos_add m n = omega int_laws

Backed-changed :
    (t : Bool) (amount : ℕ) (asset : Asset) (o : Option Asset) (n : ℤ)
    → Backed o n
    → (t ≡ true → o ≡ some asset)
    → asset.quantity + amount ≤ asset.maximum
    → Backed (changed t (asset.quantity + amount) o) (n +ℤ share t (pos amount))
unfolding changed set_quantity
Backed-changed true amount asset none n h same le = cc (same refl)
Backed-changed false amount asset none n h same le = sym (share_none false n) ∙ h
Backed-changed true amount asset (some a) n (held_all, bound) same le =
    let e = some_inj (same refl) in
    (
      ap (λ m. m +ℤ pos amount) (held_all ∙ ap (λ x. pos x.quantity) e)
          ∙ pos_add asset.quantity amount,
      subst (λ x. asset.quantity + amount ≤ x.maximum) (sym e) le,
    )
Backed-changed false amount asset (some a) n (held_all, bound) same le =
    (sym (share_none false n) ∙ held_all, bound)

not_above : (m n : ℕ) → ltb n m ≡ false → m ≤ n
not_above m n h = ground arith

issued-IsBacked :
    (address name : String) (amount : ℕ) (asset : Asset) (balances : List Balance)
    (db db' : AssetTables)
    → IsBacked db
    → find_first (has_asset_name name) db.assets ≡ some asset
    → asset.quantity + amount ≤ asset.maximum
    → increase_balance address name (pos amount) db.balances ≡ ok balances
    → db'.assets
      ≡ update_first (has_asset_name name) (set_quantity (asset.quantity + amount)) db.assets
    → db'.balances ≡ balances
    → IsBacked db'
issued-IsBacked address name amount asset balances db db' backed found le given assets kept name' =
    let asset_then =
      ap (find_first (has_asset_name name')) assets
      ∙ find_first-changed name name' (asset.quantity + amount) db.assets in
    let held_then =
      ap (held name') kept
      ∙ held-increase_balance address name name' (pos amount) db.balances balances given in
    let same = λ (t : name == name' ≡ true).
      ap (λ x. find_first (has_asset_name x) db.assets) (sym ((eq_iff name name').0 t)) ∙ found in
    subst (λ n. Backed (find_first (has_asset_name name') db'.assets) n) (sym held_then)
      (subst (λ o. Backed o (held name' db.balances +ℤ share (name == name') (pos amount)))
        (sym asset_then)
        (Backed-changed (name == name') amount asset (find_first (has_asset_name name') db.assets)
          (held name' db.balances) (backed name') same le))

-- If what is issued of every asset is what is held of it, and within its maximum, so it is after an issue
-- that goes through.
pub issue-IsBacked :
    (is_currency : Pattern) (c : Context) (name text : String) (db db' : AssetTables)
    → IsBacked db
    → issue is_currency c name text db ≡ ok db'
    → IsBacked db'
unfolding issue lock_asset set_quantity
issue-IsBacked is_currency c name text db db' backed h =
    let (good, h1) = guard_ok (not (is_currency name)) "Invalid currency" _ db' h in
    let (amount, parsed, h2) = bind_ok (amount_of text) _ db' h1 in
    let (locked, got_lock, h3) = bind_ok (lock_asset (String.◌++◌ "uia.issue@" name) db) _ db' h2 in
    let (free, unlocked) =
      guard_ok (contains db.locks (String.◌++◌ "uia.issue@" name)) "Lock name exists already" _
        locked got_lock in
    let (asset, found, h4) =
      or_throw_ok (find_first (has_asset_name name) locked.assets) "Asset not exists" _ db' h3 in
    let (allowed, h5) =
      guard_ok (not (asset.issuer_id == c.sender.address)) "Permission denied" _ db' h4 in
    let (within, h6) =
      guard_ok (ltb asset.maximum (asset.quantity + amount)) "Exceed issue limit" _ db' h5 in
    let (balances, given, e) =
      bind_ok (increase_balance c.sender.address name (pos amount) locked.balances) _ db' h6 in
    let after = sym (ok_inj e) in
    issued-IsBacked c.sender.address name amount asset balances locked db'
      (subst IsBacked (ok_inj unlocked) backed) found
      (not_above (asset.quantity + amount) asset.maximum within) given (ap (λ t. t.assets) after)
      (ap (λ t. t.balances) after)

Backed-new :
    (t : Bool) (asset : Asset) (o : Option Asset) (n : ℤ)
    → Backed o n
    → asset.quantity ≡ 0
    → (t ≡ true → is_some o ≡ false)
    → Backed (if t then some asset else o) n
Backed-new true asset none n h empty fresh = (h ∙ ap pos (sym empty), omega arith)
Backed-new true asset (some a) n h empty fresh = cc (fresh refl)
Backed-new false asset o n h empty fresh = h

registered-IsBacked :
    (asset : Asset) (db : AssetTables)
    → IsBacked db
    → asset.quantity ≡ 0
    → is_some (find_first (has_asset_name asset.name) db.assets) ≡ false
    → IsBacked (record db { assets = asset ∷ db.assets })
registered-IsBacked asset db backed empty fresh name =
    Backed-new (asset.name == name) asset (find_first (has_asset_name name) db.assets)
      (held name db.balances) (backed name) empty
      (λ t.
        ap (λ x. is_some (find_first (has_asset_name x) db.assets))
          (sym ((eq_iff asset.name name).0 t))
        ∙ fresh)

-- If what is issued of every asset is what is held of it, and within its maximum, so it is after a new
-- asset is registered.
pub register_asset-IsBacked :
    (is_symbol : Pattern) (c : Context) (symbol desc maximum : String) (precision : ℕ)
    (db db' : AssetTables)
    → IsBacked db
    → register_asset is_symbol c symbol desc maximum precision db ≡ ok db'
    → IsBacked db'
unfolding register_asset lock_asset
register_asset-IsBacked is_symbol c symbol desc maximum precision db db' backed h =
    let (good, h1) = guard_ok (not (is_symbol symbol)) "Invalid symbol" _ db' h in
    let (short, h2) =
      guard_ok (ltb 4096 (utf16_length desc)) "Invalid asset description" _ db' h1 in
    let (positive, h3) =
      guard_ok (precision == 0) "Precision should be positive integer" _ db' h2 in
    let (small, h4) = guard_ok (ltb 16 precision) "Invalid asset precision" _ db' h3 in
    let (most, parsed, h5) = bind_ok (amount_of maximum) _ db' h4 in
    let (issuer, found, h6) =
      or_throw_ok (find_first (λ i. i.issuer_id == c.sender.address) db.issuers)
        "Account is not an issuer" _ db' h5 in
    let (locked, got_lock, h7) = bind_ok (lock_asset _ db) _ db' h6 in
    let (free, unlocked) =
      guard_ok (contains db.locks _) "Lock name exists already" _ locked got_lock in
    let (fresh, e) =
      guard_ok (is_some (find_first (has_asset_name _) locked.assets)) "Asset already exists" _ db'
        h7 in
    subst IsBacked (ok_inj e)
      (registered-IsBacked _ locked (subst IsBacked (ok_inj unlocked) backed) refl fresh)
