-- ===== src/Core/Transactions/Sender.antt =====
-- packages/main/src/core/transactions.ts, `applyUnconfirmedTransactionAsync`: the sender's row.
use gny.Prelude.{
  String, ◌≡◌, refl, sym, ap, ◌∙◌, ◌≢◌, ◌⊎◌, inl, inr, false, not, ◌&&◌, none, some, ◌∷◌, arith,
  eq_iff, ◌==◌, nat_eq, string_eq, option_eq, Bool-cases, Option-cases, is_some,
}
use gny.Prelude.Int.{ℤ, pos, ◌+ℤ◌, ltb_ℤ, eqb_ℤ, int_laws, int_eq}
use gny.Prelude.Int.{+ℤ_parts}
use mathlib.Core.Path.{subst}
use gny.Interfaces.{
  ok_inj, Account, Block, Context, Transaction, ok, bind_ok, guard_ok, Result-cases,
}
use gny.Prelude.{bool_eq}
use gny.Base.Address.{is_address}
use gny.Core.State.{State, LastBlock, last_height}
use gny.Contract.Ledger.{Tables, find_first, has_address, create_account}
use gny.Contract.Ledger.Totals.{total_gny}
use gny.Contract.Basic.{new_account}
use gny.Contract.Basic.Unlock.{found-address}
use gny.Core.Transactions.{Runtime, load_sender, prepare, left_by_error}
use gny.Core.Transactions.Supply.{Stored}

-- No block, or only the genesis block, is the last one.
abbrev pub IsEarly : LastBlock → Type 0
IsEarly last =
    (last ≡ LastBlock.pre_genesis) ⊎ ((b : Block) × (last ≡ LastBlock.known b) × (b.height ≡ 0))

-- The tables with the sender's row, which is new only at the genesis block or right after it.
abbrev pub Entered : LastBlock → String → Tables → Tables → Type 0
Entered last id db db' =
    (db' ≡ db)
    ⊎ (IsEarly last
        × (find_first (has_address id) db.accounts ≡ none)
        × (db' ≡ record db { accounts = new_account id (pos 0) ∷ db.accounts }))

early :
    (last : LastBlock) (height : ℤ)
    → last_height last ≡ ok height
    → ltb_ℤ (pos 0) height ≡ false
    → IsEarly last
early LastBlock.missing height e low = cc
early LastBlock.pre_genesis height e low = inl refl
early (LastBlock.known b) height e low =
    let low' = subst (λ h. ltb_ℤ (pos 0) h ≡ false) (sym (ok_inj e)) low in
    inr (b, refl, ground (arith, low'))

pub not_genesis :
    (last : LastBlock) (height : ℤ)
    → last_height last ≡ ok height
    → last ≢ LastBlock.pre_genesis
    → eqb_ℤ (height +ℤ pos 1) (pos 0) ≡ false
not_genesis LastBlock.missing height e later = cc
not_genesis LastBlock.pre_genesis height e later = absurd (later refl)
not_genesis (LastBlock.known b) height e later =
    subst (λ h. eqb_ℤ (h +ℤ pos 1) (pos 0) ≡ false) (ok_inj e)
      (ground (arith, +ℤ_parts (pos b.height) (pos 1)))

load_sender-Entered :
    (last : LastBlock) (height : ℤ) (id : String) (db db' : Tables) (sender : Account)
    → last_height last ≡ ok height
    → load_sender height id db ≡ ok (sender, db')
    → (find_first (has_address sender.address) db'.accounts ≡ some sender) × Entered last id db db'
unfolding create_account
load_sender-Entered last height id db db' sender e h =
    let Loaded : Account × Tables → Type 0 = λ x.
      (find_first (has_address x.0.address) x.1.accounts ≡ some x.0) × Entered last id db x.1 in
    elim (Option-cases (find_first (has_address id) db.accounts)) [
      | inr (a, found) ↦
          let loaded : load_sender height id db ≡ ok (a, db) = rw (found, load_sender) refl in
          subst Loaded (ok_inj (sym loaded ∙ h)) (
            subst (λ i. find_first (has_address i) db.accounts ≡ some a)
                (sym (found-address id a db.accounts found)) found,
            inl refl,
          )
      | inl absent ↦ elim (Bool-cases (ltb_ℤ (pos 0) height)) [
        | inl high ↦ ground (arith, absent, high, h)
        | inr low ↦
            let made = record db { accounts = new_account id (pos 0) ∷ db.accounts } in
            let created : create_account (new_account id (pos 0)) db ≡ ok made =
              rw (absent, create_account) refl in
            let loaded : load_sender height id db ≡ ok (new_account id (pos 0), made) =
              rw (absent, low, created, load_sender) refl in
            subst Loaded (ok_inj (sym loaded ∙ h))
              (ground (arith, eq_iff id id), inr (early last height e low, absent, refl))
      ]
    ]

-- What the first half of the execution has found.
abbrev pub Prepared : LastBlock → Transaction → Tables → ℤ × Context × Tables → Type 0
Prepared last t db (height, c, db') =
    (last_height last ≡ ok height)
    × (c.trs ≡ t)
    × (c.block_height ≡ height +ℤ pos 1)
    × Stored c db'
    × Entered last t.sender_id db db'

pub prepare-Prepared :
    (r : Runtime) (s : State) (t : Transaction) (db : Tables) (x : ℤ × Context × Tables)
    → prepare r s t db ≡ ok x
    → Prepared s.last_block t db x
unfolding prepare
prepare-Prepared r s t db x h =
    let (height, e, h1) = bind_ok (last_height s.last_block) _ x h in
    let (named, h2) = guard_ok (t.sender_id == "") "Missing sender address" _ x h1 in
    let (keyed, h3) =
      guard_ok (is_address r.platform t.sender_id && not (is_some t.sender_public_key))
        "Sender public key not provided" _ x h2 in
    let ((sender, db'), loaded, done) = bind_ok (load_sender height t.sender_id db) _ x h3 in
    let (stored, entered) =
      load_sender-Entered s.last_block height t.sender_id db db' sender e loaded in
    subst (Prepared s.last_block t db) (ok_inj done) (e, refl, refl, stored, entered)

nothing_held : (a : ℤ) → pos 0 +ℤ pos 0 +ℤ a ≡ a
nothing_held a = omega int_laws

pub Entered-total :
    (last : LastBlock) (id : String) (db db' : Tables)
    → Entered last id db db'
    → total_gny db' ≡ total_gny db
Entered-total last id db db' (inl same) = ap total_gny same
Entered-total last id db db' (inr (first, absent, made)) =
    ap total_gny made ∙ nothing_held (total_gny db)

pub left_by_error-Entered :
    (r : Runtime) (s : State) (t : Transaction) (db : Tables)
    → Entered s.last_block t.sender_id db (left_by_error r s t db)
unfolding left_by_error
left_by_error-Entered r s t db = elim (Result-cases (prepare r s t db)) [
  | inr (message, failed) ↦ rw (failed, left_by_error) (inl refl)
  | inl (x, done) ↦ rw (done, left_by_error) ((prepare-Prepared r s t db x done).4)
]
