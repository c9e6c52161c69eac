-- ===== src/Core/Transactions/Admission.antt =====
-- What is admitted to the pool of unconfirmed transactions.
use gny.Prelude.{
  ◌-◌, String, ◌≡◌, refl, ap, ◌∙◌, inl, inr, true, false, ◌||◌, some, [], ◌∷◌, ◌++◌, arith, eq_iff,
  nat_eq, string_eq, option_eq, length, get_elem?, length-append, get_elem?-append_self, contains,
}
use gny.Prelude.Int.{int_eq}
use gny.Prelude.Map.{lookup-insert}
use mathlib.Core.Path.{subst}
use gny.Prelude.{bool_eq}
use gny.Utils.LimitCache.{has_key}
use gny.Utils.LimitCache.Keys.{has_key-set_entry}
use gny.Interfaces.{ok_inj, Transaction, Result, ok, err, bind_ok, guard_ok, Result-cases}
use gny.Base.TransactionBase.{get_id}
use gny.Pool.{TransactionPool, add, has_id}
use gny.Core.State.{State}
use gny.Contract.Ledger.{Tables}
use gny.Core.Transactions.{
  Runtime, Pending, with_id, known_id, check_new, admit, settle, apply_unconfirmed_transaction,
  process_unconfirmed_transaction,
}

-- What an admission has checked.
abbrev pub Admitted : Runtime → State → Transaction → Pending → Transaction → Tables → Type 0
Admitted r s t p trs db =
    (with_id r t ≡ ok trs)
    × (s.priv_is_collecting_votes ≡ false)
    × (has_key trs.id p.failed ≡ false)
    × (has_id trs.id p.pool ≡ false)
    × (contains p.confirmed trs.id ≡ false)
    × (apply_unconfirmed_transaction r s trs p.tables ≡ ok db)

-- What the checks have found.
abbrev pub New : Runtime → State → Transaction → Pending → Transaction → Type 0
New r s t p trs =
    (with_id r t ≡ ok trs)
    × (s.priv_is_collecting_votes ≡ false)
    × (has_key trs.id p.failed ≡ false)
    × (has_id trs.id p.pool ≡ false)
    × (contains p.confirmed trs.id ≡ false)

pub check_new-New :
    (r : Runtime) (s : State) (t : Transaction) (p : Pending) (trs : Transaction)
    → check_new r s t p ≡ ok trs
    → New r s t p trs
unfolding check_new
check_new-New r s t p trs h =
    let (u, named, h1) = bind_ok (with_id r t) _ trs h in
    let (idle, h2) = guard_ok s.priv_is_collecting_votes "Block consensus in processing" _ trs h1 in
    let (new, h3) = guard_ok (has_key u.id p.failed) "Transaction already processed" _ trs h2 in
    let (absent, h4) = guard_ok (has_id u.id p.pool) "Transaction already in the pool" _ trs h3 in
    let (open_, e) =
      guard_ok (contains p.confirmed u.id) "Transaction already confirmed" _ trs h4 in
    subst (New r s t p) (ok_inj e) (named, idle, new, absent, open_)

pub admit-Admitted :
    (r : Runtime) (s : State) (t : Transaction) (p : Pending) (trs : Transaction) (db : Tables)
    → admit r s t p ≡ ok (trs, db)
    → Admitted r s t p trs db
unfolding admit
admit-Admitted r s t p trs db h =
    let (u, checked, h1) = bind_ok (check_new r s t p) _ (trs, db) h in
    let (db', applied, e) = bind_ok (apply_unconfirmed_transaction r s u p.tables) _ (trs, db) h1 in
    let (named, idle, new, absent, open_) = check_new-New r s t p u checked in
    subst (λ x. Admitted r s t p x.0 x.1) (ok_inj e) (named, idle, new, absent, open_, applied)

pub with_id-known_id :
    (r : Runtime) (t trs : Transaction) → with_id r t ≡ ok trs → trs.id ≡ known_id r t
with_id-known_id r t trs h = ground (arith, eq_iff t.id "", eq_iff t.id (get_id r.platform t))

has_id-add : (t : Transaction) (p : TransactionPool) → has_id t.id (add t p) ≡ true
unfolding has_id add
has_id-add t p =
    let slots = p.un_confirmed ++ some t ∷ [] in
    let last : length slots - 1 ≡ length p.un_confirmed =
      omega (arith, length-append p.un_confirmed (some t ∷ [])) in
    let content : get_elem? slots (length slots - 1) ≡ some (some t) =
      ap (get_elem? slots) last ∙ get_elem?-append_self p.un_confirmed (some t) in
    ground (arith, content, lookup-insert t.id t.id (length slots - 1) p.index, eq_iff t.id t.id)

-- An id that has failed or is in the pool is not admitted.
seen-refused :
    (r : Runtime) (s : State) (t : Transaction) (p : Pending)
    → (has_key (known_id r t) p.failed || has_id (known_id r t) p.pool) ≡ true
    → (message : String) × (admit r s t p ≡ err message)
seen-refused r s t p seen = elim (Result-cases (admit r s t p)) [
  | inr refused ↦ refused
  | inl ((trs, db), e) ↦
      let (named, idle, new, absent, old, applied) = admit-Admitted r s t p trs db e in
      let same = with_id-known_id r t trs named in
      let new' = subst (λ id. has_key id p.failed ≡ false) same new in
      let absent' = subst (λ id. has_id id p.pool ≡ false) same absent in
      ground (arith, new', absent', seen)
]

settle_seen :
    (r : Runtime) (s : State) (t : Transaction) (p : Pending)
    (result : Result (Transaction × Tables))
    → admit r s t p ≡ result
    → let q = (settle r s t p result).1 in
      (has_key (known_id r t) q.failed || has_id (known_id r t) q.pool) ≡ true
settle_seen r s t p (ok (trs, db)) e =
    let named = (admit-Admitted r s t p trs db e).0 in
    let pooled : has_id (known_id r t) (add trs p.pool) ≡ true =
      subst (λ id. has_id id (add trs p.pool) ≡ true) (with_id-known_id r t trs named)
        (has_id-add trs p.pool) in
    ground (arith, pooled)
settle_seen r s t p (err message) e = ground (arith, has_key-set_entry (known_id r t) true p.failed)

-- A transaction that was processed is refused when it comes again, whatever has become of the state.
pub process_again-err :
    (r : Runtime) (s s' : State) (t : Transaction) (p : Pending)
    → (message : String) × ((process_unconfirmed_transaction r s' t
          (process_unconfirmed_transaction r s t p).1).0
        ≡ err message)
unfolding process_unconfirmed_transaction
process_again-err r s s' t p =
    let q = (settle r s t p (admit r s t p)).1 in
    let (message, e) = seen-refused r s' t q (settle_seen r s t p (admit r s t p) refl) in
    (message, ap (λ result. (settle r s' t q result).0) e)
