-- ===== src/Core/Rounds/Pay.antt =====
-- What the end of a round pays.
use gny.Prelude.{
  ℕ, suc, ◌+◌, ◌*◌, ◌/◌, ◌%◌, String, ◌≡◌, sym, ap, ◌∙◌, not, List, [], ◌∷◌, ◌==◌, nat_eq,
  string_eq, option_eq, length, contains,
}
use gny.Prelude.Int.{ℤ, pos, ◌+ℤ◌, ◌-ℤ◌, int_laws, int_eq}
use native.Mathlib.Nat.{mod-add-div', mul_comm, add-mul}
use gny.Interfaces.{ok_inj, ok, bind_ok, or_throw_ok}
use gny.Base.Platform.{Platform}
use gny.Base.Address.{generate_address}
use gny.Contract.Ledger.{Delegate, Tables, find_first, filter}
use gny.Contract.Ledger.Totals.{sum_of, holdings, total_gny, increase_gny-total}
use gny.Core.Rounds.{
  Round, increase_delegate, update_delegate, count_missed, pay_each, remainder, end_round,
}

increase_delegate-total :
    (address : String) (f : Delegate → Delegate) (db db' : Tables)
    → increase_delegate address f db ≡ ok db'
    → total_gny db' ≡ total_gny db
unfolding increase_delegate
increase_delegate-total address f db db' h =
    let (d, found, e) =
      or_throw_ok (find_first (λ d. d.address == address) db.delegates) "Entity not found" _ db'
        h in
    ap (λ x. sum_of holdings x.accounts) (sym (ok_inj e))

update_delegate-total :
    (p : Platform) (key : String) (fee reward : ℤ) (db db' : Tables)
    → update_delegate p key fee reward db ≡ ok db'
    → total_gny db' ≡ total_gny db +ℤ (fee +ℤ reward)
unfolding update_delegate
update_delegate-total p key fee reward db db' h =
    let (mid, counted, paid) = bind_ok (increase_delegate _ _ db) _ db' h in
    increase_gny-total (generate_address p key) (fee +ℤ reward) mid db' paid
    ∙ ap (λ n. n +ℤ (fee +ℤ reward)) (increase_delegate-total _ _ db mid counted)

count_missed-total :
    (p : Platform) (names : List String) (db db' : Tables)
    → count_missed p names db ≡ ok db'
    → total_gny db' ≡ total_gny db
unfolding count_missed
count_missed-total p [] db db' h = ap total_gny (sym (ok_inj h))
count_missed-total p (name ∷ names) db db' h =
    let (mid, counted, rest) = bind_ok (increase_delegate _ _ db) _ db' h in
    count_missed-total p names mid db' rest ∙ increase_delegate-total _ _ db mid counted

add_one_more :
    (a : ℤ) (fee reward k : ℕ)
    → a +ℤ (pos fee +ℤ pos reward) +ℤ pos (k * (fee + reward)) ≡ a +ℤ pos (suc k * (fee + reward))
add_one_more a fee reward k = omega int_laws

nothing_more : (a : ℤ) (n : ℕ) → a ≡ a +ℤ pos (0 * n)
nothing_more a n = omega int_laws

pay_each-total :
    (p : Platform) (names : List String) (fee reward : ℕ) (db db' : Tables)
    → pay_each p names (pos fee) (pos reward) db ≡ ok db'
    → total_gny db' ≡ total_gny db +ℤ pos (length names * (fee + reward))
unfolding pay_each
pay_each-total p [] fee reward db db' h =
    ap total_gny (sym (ok_inj h)) ∙ nothing_more (total_gny db) (fee + reward)
pay_each-total p (name ∷ names) fee reward db db' h =
    let (mid, paid, rest) = bind_ok (update_delegate p name (pos fee) (pos reward) db) _ db' h in
    pay_each-total p names fee reward mid db' rest
    ∙ ap (λ n. n +ℤ pos (length names * (fee + reward)))
        (update_delegate-total p name (pos fee) (pos reward) db mid paid)
    ∙ add_one_more (total_gny db) fee reward (length names)

-- The total of three parts, each added in turn.
add_up : (a b c d : ℤ) → a +ℤ b +ℤ (c +ℤ d) ≡ a +ℤ (b +ℤ (c +ℤ d))
add_up a b c d = omega int_laws

-- The end of a round pays every forger the whole part of an equal share of the fees and of the rewards, and
-- the last forger the remainders besides, which are the shares of all delegates less what there was to
-- share. So the accounts gain, where f blocks were forged and the round has n delegates,
-- f * (fee / n + reward / n) + (fee / n * n - fee) + (reward / n * n - reward).
pub end_round-total_gny :
    (p : Platform) (last : String) (forged delegates : List String) (r : Round) (db db' : Tables)
    → end_round p last forged delegates r db ≡ ok db'
    → let n = length delegates in
      total_gny db'
      ≡ total_gny db
        +ℤ (pos (length forged * (r.fee / n + r.reward / n))
            +ℤ (remainder r.fee n +ℤ remainder r.reward n))
unfolding end_round
end_round-total_gny p last forged delegates r db db' h =
    let n = length delegates in
    let missed = filter (λ key. not (contains forged key)) delegates in
    let (counted, e, h1) = bind_ok (count_missed p missed db) _ db' h in
    let (paid, e', h2) =
      bind_ok (pay_each p forged (pos (r.fee / n)) (pos (r.reward / n)) counted) _ db' h1 in
    update_delegate-total p last (remainder r.fee n) (remainder r.reward n) paid db' h2
    ∙ ap (λ x. x +ℤ (remainder r.fee n +ℤ remainder r.reward n))
        (pay_each-total p forged (r.fee / n) (r.reward / n) counted paid e'
          ∙ ap (λ x. x +ℤ pos (length forged * (r.fee / n + r.reward / n)))
              (count_missed-total p missed db counted e))
    ∙ add_up (total_gny db) (pos (length forged * (r.fee / n + r.reward / n))) (remainder r.fee n)
        (remainder r.reward n)

twice_lost :
    (t : ℤ) (s qf qr mf mr f r : ℕ)
    → s ≡ qf + qr
    → mf + qf ≡ f
    → mr + qr ≡ r
    → t +ℤ (pos s +ℤ ((pos qf -ℤ pos f) +ℤ (pos qr -ℤ pos r))) +ℤ pos (2 * mf + 2 * mr)
      ≡ t +ℤ pos (f + r)
twice_lost t s qf qr mf mr f r shares fee reward = omega int_laws

all_shares : (k n a b : ℕ) → k ≡ n → k * (a + b) ≡ a * n + b * n
all_shares k n a b e = ap (λ m. m * (a + b)) e ∙ mul_comm n (a + b) ∙ add-mul a b n

-- Where every delegate of the round forged once, the accounts gain the fees and rewards of the round less
-- twice what is left when these are shared out: fee - 2 * (fee % n) + reward - 2 * (reward % n).
pub end_round_loses_twice :
    (p : Platform) (last : String) (forged delegates : List String) (r : Round) (db db' : Tables)
    → length forged ≡ length delegates
    → end_round p last forged delegates r db ≡ ok db'
    → let n = length delegates in
      total_gny db' +ℤ pos (2 * (r.fee % n) + 2 * (r.reward % n))
      ≡ total_gny db +ℤ pos (r.fee + r.reward)
end_round_loses_twice p last forged delegates r db db' each h =
    let n = length delegates in
    ap (λ x. x +ℤ pos (2 * (r.fee % n) + 2 * (r.reward % n)))
      (end_round-total_gny p last forged delegates r db db' h)
    ∙ twice_lost (total_gny db) (length forged * (r.fee / n + r.reward / n)) (r.fee / n * n)
        (r.reward / n * n) (r.fee % n) (r.reward % n) r.fee r.reward
        (all_shares (length forged) n (r.fee / n) (r.reward / n) each) (mod-add-div' r.fee n)
        (mod-add-div' r.reward n)
