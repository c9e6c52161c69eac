-- ===== src/Core/Rounds/Paid.antt =====
-- Whom the end of a round pays, account by account.
use gny.Prelude.{
  ℕ, suc, ◌+◌, ◌*◌, ◌/◌, String, ◌≡◌, refl, sym, ap, ◌∙◌, inl, inr, Bool, true, false, not, some,
  List, [], ◌∷◌, eq_iff, if◌then◌else◌, ◌==◌, nat_eq, string_eq, option_eq, Bool-cases, length,
  contains,
}
use gny.Prelude.Int.{ℤ, pos, ◌+ℤ◌, ◌-ℤ◌, int_laws, int_eq}
use gny.Prelude.Map.{keys}
use mathlib.Core.Path.{subst}
use gny.Interfaces.{ok_inj, Account, ok, bind_ok, or_throw_ok}
use gny.Base.Platform.{Platform}
use gny.Base.Address.{generate_address}
use gny.Contract.Ledger.{
  Delegate, Tables, find_first, update_first, has_address, increase_gny, filter,
}
use gny.Contract.Basic.Unlock.{found-address, find_first-update_first}
use gny.Core.Rounds.{
  Round, increase_delegate, update_delegate, count_missed, pay_each, remainder, end_round,
}

-- The row at an address is a given one but for its balance.
abbrev pub Holds : String → Account → Tables → ℤ → Type 0
Holds address a db gny =
    find_first (has_address address) db.accounts ≡ some (record a { gny = gny })

-- How many of the keys have an address.
unfoldable pub times : Platform → String → List String → ℕ
times p address [] = 0
times p address (key ∷ keys) =
    let rest = times p address keys in if generate_address p key == address then suc rest else rest

-- Another row is left alone.
find_first-update_other :
    (x address : String) (f : Account → Account) (accounts : List Account)
    → ((a : Account) → (f a).address ≡ a.address)
    → (x == address) ≡ false
    → find_first (has_address address) (update_first (has_address x) f accounts)
      ≡ find_first (has_address address) accounts
find_first-update_other x address f [] same other = refl
find_first-update_other x address f (a ∷ accounts) same other = elim (Bool-cases (a.address == x)) [
  | inl here ↦
      let no : (a.address == address) ≡ false =
        ap (λ y. y == address) ((eq_iff a.address x).0 here) ∙ other in
      let no' : ((f a).address == address) ≡ false = ap (λ y. y == address) (same a) ∙ no in
      rw (here, no, no') refl
  | inr there ↦ rw there (
      ap (λ o. if a.address == address then some a else o)
        (find_first-update_other x address f accounts same other))
]

no_change : (g : ℤ) → g ≡ g +ℤ pos 0
no_change g = omega int_laws

module _ (p : Platform) (address : String) (a : Account) where
  increase_gny-Holds :
      (x : String) (delta gny : ℤ) (db db' : Tables)
      → Holds address a db gny
      → increase_gny x delta db ≡ ok db'
      → Holds address a db' (gny +ℤ (if x == address then delta else pos 0))
  unfolding increase_gny
  increase_gny-Holds x delta gny db db' held h =
      let f : Account → Account = λ b. record b { gny = b.gny +ℤ delta } in
      let (b, found, e) =
        or_throw_ok (find_first (has_address x) db.accounts) "Entity not found" _ db' h in
      let written : Holds address a
          (record db { accounts = update_first (has_address x) f db.accounts })
          (gny +ℤ (if x == address then delta else pos 0)) =
        elim (Bool-cases (x == address)) [
          | inl here ↦ rw here (
              subst
                (λ i.
                  find_first (has_address address) (update_first (has_address i) f db.accounts)
                  ≡ some (record a { gny = gny +ℤ delta }))
                (sym ((eq_iff x address).0 here))
                (find_first-update_first address f (record a { gny = gny }) db.accounts
                  (found-address address (record a { gny = gny }) db.accounts held) held))
          | inr there ↦ rw there (
              find_first-update_other x address f db.accounts (λ y. refl) there
              ∙ held
              ∙ ap (λ g. some (record a { gny = g })) (no_change gny))
        ] in
      subst (λ d. Holds address a d (gny +ℤ (if x == address then delta else pos 0))) (ok_inj e)
        written

  increase_delegate-accounts :
      (x : String) (f : Delegate → Delegate) (db db' : Tables)
      → increase_delegate x f db ≡ ok db'
      → db'.accounts ≡ db.accounts
  unfolding increase_delegate
  increase_delegate-accounts x f db db' h =
      let (d, found, e) =
        or_throw_ok (find_first (λ d. d.address == x) db.delegates) "Entity not found" _ db' h in
      ap (λ y. y.accounts) (sym (ok_inj e))

  count_missed-accounts :
      (keys : List String) (db db' : Tables)
      → count_missed p keys db ≡ ok db'
      → db'.accounts ≡ db.accounts
  unfolding count_missed
  count_missed-accounts [] db db' h = ap (λ y. y.accounts) (sym (ok_inj h))
  count_missed-accounts (key ∷ keys) db db' h =
      let (mid, counted, rest) = bind_ok (increase_delegate _ _ db) _ db' h in
      count_missed-accounts keys mid db' rest ∙ increase_delegate-accounts _ _ db mid counted

  update_delegate-Holds :
      (key : String) (fee reward gny : ℤ) (db db' : Tables)
      → Holds address a db gny
      → update_delegate p key fee reward db ≡ ok db'
      → Holds address a db'
          (gny +ℤ (if generate_address p key == address then fee +ℤ reward else pos 0))
  unfolding update_delegate
  update_delegate-Holds key fee reward gny db db' held h =
      let (mid, counted, paid) = bind_ok (increase_delegate _ _ db) _ db' h in
      increase_gny-Holds (generate_address p key) (fee +ℤ reward) gny mid db'
        (ap (find_first (has_address address)) (increase_delegate-accounts _ _ db mid counted)
          ∙ held)
        paid

  add_share :
      (b : Bool) (g : ℤ) (fee reward k : ℕ)
      → g +ℤ (if b then pos fee +ℤ pos reward else pos 0) +ℤ pos (k * (fee + reward))
        ≡ g +ℤ pos ((if b then suc k else k) * (fee + reward))
  add_share true g fee reward k = omega int_laws
  add_share false g fee reward k = omega int_laws

  no_share : (g : ℤ) (n : ℕ) → g ≡ g +ℤ pos (0 * n)
  no_share g n = omega int_laws

  pay_each-Holds :
      (keys : List String) (fee reward : ℕ) (gny : ℤ) (db db' : Tables)
      → Holds address a db gny
      → pay_each p keys (pos fee) (pos reward) db ≡ ok db'
      → Holds address a db' (gny +ℤ pos (times p address keys * (fee + reward)))
  unfolding pay_each times
  pay_each-Holds [] fee reward gny db db' held h =
      subst (λ d. Holds address a d (gny +ℤ pos (0 * (fee + reward)))) (ok_inj h)
        (subst (Holds address a db) (no_share gny (fee + reward)) held)
  pay_each-Holds (key ∷ keys) fee reward gny db db' held h =
      let (mid, paid, rest) = bind_ok (update_delegate p key (pos fee) (pos reward) db) _ db' h in
      let b = generate_address p key == address in
      subst (Holds address a db') (add_share b gny fee reward (times p address keys)) (
        pay_each-Holds keys fee reward (gny +ℤ (if b then pos fee +ℤ pos reward else pos 0)) mid db'
          (update_delegate-Holds key (pos fee) (pos reward) gny db mid held paid) rest)

-- The end of a round pays every account just for the blocks that it forged: its balance grows by a whole share
-- of the fees and of the rewards, fee / n and reward / n for n delegates, for each time that a key with its
-- address is among the forgers, and the last forger's grows also by what n whole shares are more than there
-- was to share, which is negative or 0. Nothing else of its row changes.
pub end_round_pays :
    (p : Platform) (last : String) (forged delegates : List String) (r : Round) (db db' : Tables)
    (address : String) (a : Account)
    → find_first (has_address address) db.accounts ≡ some a
    → end_round p last forged delegates r db ≡ ok db'
    → let n = length delegates in
      find_first (has_address address) db'.accounts
      ≡ some (record a {
        gny =
            a.gny
            +ℤ pos (times p address forged * (r.fee / n + r.reward / n))
            +ℤ (if generate_address p last == address
                then (pos (r.fee / n * n) -ℤ pos r.fee) +ℤ (pos (r.reward / n * n) -ℤ pos r.reward)
                else pos 0);
      })
unfolding end_round
end_round_pays p last forged delegates r db db' address a found h =
    let n = length delegates in
    let missed = filter (λ key. not (contains forged key)) delegates in
    let (counted, e, h1) = bind_ok (count_missed p missed db) _ db' h in
    let (paid, e', h2) =
      bind_ok (pay_each p forged (pos (r.fee / n)) (pos (r.reward / n)) counted) _ db' h1 in
    let held : Holds address a counted a.gny =
      ap (find_first (has_address address)) (count_missed-accounts p address a missed db counted e)
      ∙ found in
    update_delegate-Holds p address a last (remainder r.fee n) (remainder r.reward n)
      (a.gny +ℤ pos (times p address forged * (r.fee / n + r.reward / n))) paid db'
      (pay_each-Holds p address a forged (r.fee / n) (r.reward / n) a.gny counted paid held e') h2
