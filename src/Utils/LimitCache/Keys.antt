-- ===== src/Utils/LimitCache/Keys.antt =====
-- Which keys a `LimitCache` holds after `set`.
use gny.Prelude.{
  ◌≡◌, true, not, ◌&&◌, arith, leb, if◌then◌else◌, Eq, nat_eq, string_eq, option_eq, length,
}
use gny.Prelude.Int.{int_eq}
use gny.Prelude.Map.{has, lookup-insert}
use gny.Utils.LimitCache.{LimitCache, drop_oldest, store, set_entry, has_key}

module _ {ℓ κ} {K : Type ℓ} {V : Type κ} ⦃e : Eq K⦄ ⦃f : Eq V⦄ where
  has_key-store :
      (key : K) (value : V) (c : LimitCache K V) → has_key key (store key value c) ≡ true
  unfolding store
  has_key-store key value c = ground (arith, lookup-insert key key value c.cache, e.eqb_iff key key)

  -- The key that was set last is there, whatever had to go for it.
  pub has_key-set_entry :
      (key : K) (value : V) (c : LimitCache K V) → has_key key (set_entry key value c) ≡ true
  unfolding set_entry
  has_key-set_entry key value c = ground (
    arith,
    has_key-store key value c,
    has_key-store key value (
        if leb c.limit (length c.cache) && not (has key c.cache) then drop_oldest c c.index else c),
  )
