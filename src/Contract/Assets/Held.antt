-- ===== src/Contract/Assets/Held.antt =====
-- packages/main/src/smartdb/balance-manager.ts: what the accounts hold of a currency, all together.
use gny.Prelude.{
  ℕ, String, ◌≡◌, sym, ap, ◌∙◌, inl, inr, Bool, true, false, ◌||◌, some, List, [], ◌∷◌, arith,
  eq_iff, ltb, if◌then◌else◌, ◌==◌, nat_eq, string_eq, option_eq, Bool-cases, is_some, option_beq,
}
use gny.Prelude.Int.{ℤ, pos, ◌+ℤ◌, ◌-ℤ◌, ltb_ℤ, eqb_ℤ, eqb_ℤ_iff, int_laws, int_eq}
use gny.Prelude.Text.{utf16_length}
use gny.Interfaces.{Context, Result, ok, ok_inj, ◌>>=◌, bind_ok, guard_ok}
use gny.Base.Platform.{Platform}
use gny.Contract.Ledger.{find_first, update_first}
use gny.Contract.Basic.{amount_of}
use gny.Contract.Assets.{
  create_asset_transfer, Balance, AssetTables, is_balance, get_currency_flag, get_balance,
  increase_balance, transfer_balance, recipient_address, transfer_asset,
}

-- All that is held of a currency.
abbrev pub held : String → List Balance → ℤ
held currency [] = pos 0
held currency (b ∷ balances) =
    let rest = held currency balances in
    (if b.currency == currency then b.balance else pos 0) +ℤ rest

abbrev pub share : Bool → ℤ → ℤ
share test amount = if test then amount else pos 0

abbrev grown : ℤ → Balance → Balance
grown amount b = record b { balance = b.balance +ℤ amount }

grow_head : (a n rest : ℤ) → a +ℤ n +ℤ rest ≡ a +ℤ rest +ℤ n
grow_head a n rest = omega int_laws

grow_tail : (a n rest : ℤ) → a +ℤ (rest +ℤ n) ≡ a +ℤ rest +ℤ n
grow_tail a n rest = omega int_laws

share_head :
    (t : Bool) (a n rest : ℤ)
    → (if t then a +ℤ n else pos 0) +ℤ rest ≡ (if t then a else pos 0) +ℤ rest +ℤ share t n
share_head true a n rest = grow_head a n rest
share_head false a n rest = omega int_laws

is_balance_currency :
    (address currency : String) (b : Balance)
    → is_balance address currency b ≡ true
    → b.currency ≡ currency
is_balance_currency address currency b h = ground (arith, eq_iff b.currency currency)

held-grown :
    (address currency name : String) (amount : ℤ) (balances : List Balance)
    → is_some (find_first (is_balance address currency) balances) ≡ true
    → held name (update_first (is_balance address currency) (grown amount) balances)
      ≡ held name balances +ℤ share (currency == name) amount
held-grown address currency name amount [] h = cc
held-grown address currency name amount (b ∷ balances) h =
    elim (Bool-cases (is_balance address currency b)) [
      | inl here ↦
          ap
            (λ t. held name (
              if t
              then grown amount b ∷ balances
              else b ∷ update_first (is_balance address currency) (grown amount) balances))
            here
          ∙ share_head (b.currency == name) b.balance amount (held name balances)
          ∙ ap (λ c. held name (b ∷ balances) +ℤ share (c == name) amount)
              (is_balance_currency address currency b here)
      | inr there ↦
          let found =
            sym (
              ap
                (λ t.
                  is_some (if t then some b else find_first (is_balance address currency) balances))
                there)
            ∙ h in
          ap
            (λ t. held name (
              if t
              then grown amount b ∷ balances
              else b ∷ update_first (is_balance address currency) (grown amount) balances))
            there
          ∙ ap (λ n. (if b.currency == name then b.balance else pos 0) +ℤ n)
              (held-grown address currency name amount balances found)
          ∙ grow_tail (if b.currency == name then b.balance else pos 0)
              (share (currency == name) amount) (held name balances)
    ]

pub share_none : (t : Bool) (n : ℤ) → n ≡ n +ℤ share t (pos 0)
share_none true n = omega int_laws
share_none false n = omega int_laws

share_new : (t : Bool) (a n : ℤ) → (if t then a else pos 0) +ℤ n ≡ n +ℤ share t a
share_new true a n = omega int_laws
share_new false a n = omega int_laws

kept_row :
    (amount : ℤ) (balances balances' : List Balance) (rest : Result (List Balance))
    → eqb_ℤ amount (pos 0) ≡ true
    → (if eqb_ℤ amount (pos 0) then ok balances else rest) ≡ ok balances'
    → balances ≡ balances'
kept_row amount balances balances' rest e h =
    ok_inj (sym (ap (λ t. if t then ok balances else rest) e) ∙ h)

-- A row that is found grows, and a row that is missing is added.
increase_balance-cases :
    (address currency : String) (amount : ℤ) (balances balances' : List Balance)
    → increase_balance address currency amount balances ≡ ok balances'
    → eqb_ℤ amount (pos 0) ≡ false
    → (found : Bool) → is_some (find_first (is_balance address currency) balances) ≡ found
    → (if found
        then ok (update_first (is_balance address currency) (grown amount) balances)
        else (get_currency_flag currency >>= λ flag. ok (
            record { address = address; currency = currency; balance = amount; flag = flag }
            ∷ balances)))
      ≡ ok balances'
unfolding increase_balance
increase_balance-cases address currency amount balances balances' h added found e =
    let branch = λ (t : Bool).
      if t
      then ok (update_first (is_balance address currency) (grown amount) balances)
      else (get_currency_flag currency >>= λ flag. ok (
          record { address = address; currency = currency; balance = amount; flag = flag }
          ∷ balances)) in
    let known = is_some (find_first (is_balance address currency) balances) in
    sym (ap (λ t. if t then ok balances else branch known) added ∙ ap branch e) ∙ h

pub held-increase_balance :
    (address currency name : String) (amount : ℤ) (balances balances' : List Balance)
    → increase_balance address currency amount balances ≡ ok balances'
    → held name balances' ≡ held name balances +ℤ share (currency == name) amount
unfolding increase_balance
held-increase_balance address currency name amount balances balances' h =
    elim (Bool-cases (eqb_ℤ amount (pos 0))) [
      | inl none_added ↦
          sym (ap (held name) (kept_row amount balances balances' _ none_added h))
          ∙ share_none (currency == name) (held name balances)
          ∙ ap (λ n. held name balances +ℤ share (currency == name) n)
              (sym ((eqb_ℤ_iff amount (pos 0)).0 none_added))
      | inr added ↦
          elim (Bool-cases (is_some (find_first (is_balance address currency) balances))) [
            | inl found ↦
                let same = ok_inj (
                  increase_balance-cases address currency amount balances balances' h added true
                    found) in
                sym (ap (held name) same) ∙ held-grown address currency name amount balances found
            | inr absent ↦
                let (flag, flagged, e) = bind_ok (get_currency_flag currency) _ balances' (
                  increase_balance-cases address currency amount balances balances' h added false
                    absent) in
                sym (ap (held name) (ok_inj e))
                ∙ share_new (currency == name) amount (held name balances)
          ]
    ]

moved : (t : Bool) (a : ℕ) (n : ℤ) → n +ℤ share t (pos 0 -ℤ pos a) +ℤ share t (pos a) ≡ n
moved true a n = omega int_laws
moved false a n = omega int_laws

held-transfer_balance :
    (currency : String) (amount : ℕ) (from to : String) (balances balances' : List Balance)
    (name : String)
    → transfer_balance currency amount from to balances ≡ ok balances'
    → held name balances' ≡ held name balances
unfolding transfer_balance
held-transfer_balance currency amount from to balances balances' name h =
    let (between, taken, given) =
      bind_ok _ (increase_balance to currency (pos amount)) balances' h in
    held-increase_balance to currency name (pos amount) between balances' given
    ∙ ap (λ n. n +ℤ share (currency == name) (pos amount))
        (held-increase_balance from currency name (pos 0 -ℤ pos amount) balances between taken)
    ∙ moved (currency == name) amount (held name balances)

-- A transfer that goes through leaves the assets as they are, and all that the accounts hold of each
-- currency too.
pub transfer_asset-conserves :
    (p : Platform) (c : Context) (currency text recipient : String) (db db' : AssetTables)
    (name : String)
    → transfer_asset p c currency text recipient db ≡ ok db'
    → (db'.assets ≡ db.assets) × (held name db'.balances ≡ held name db.balances)
unfolding transfer_asset create_asset_transfer
transfer_asset-conserves p c currency text recipient db db' name h =
    let (short, h1) = guard_ok (ltb 30 (utf16_length currency)) "Invalid currency" _ db' h in
    let (named, h2) =
      guard_ok (recipient == "" || ltb 50 (utf16_length recipient)) "Invalid recipient" _ db' h1 in
    let (amount, parsed, h3) = bind_ok (amount_of text) _ db' h2 in
    let (other, h4) =
      guard_ok (c.sender.address == recipient || option_beq c.sender.username (some recipient))
        "Invalid recipient" _ db' h3 in
    let (enough, h5) =
      guard_ok (ltb_ℤ (get_balance c.sender.address currency db.balances) (pos amount))
        "Insufficient balance" _ db' h4 in
    let (recipient_row, known, h6) = bind_ok (recipient_address p recipient db.accounts) _ db' h5 in
    let (balances, paid, h7) =
      bind_ok (transfer_balance currency amount c.sender.address recipient_row.0 db.balances) _ db'
        h6 in
    let (fresh, e) =
      guard_ok (is_some (find_first (λ u. u.tid == c.trs.id) db.transfers)) "entity exists already"
        _ db' h7 in
    let same = sym (ok_inj e) in
    (
      ap (λ t. t.assets) same,
      ap (λ t. held name t.balances) same
          ∙ held-transfer_balance currency amount c.sender.address recipient_row.0 db.balances
              balances name paid,
    )
