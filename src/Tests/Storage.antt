-- ===== src/Tests/Storage.antt =====
-- The theorems on the transaction pool and the block cache, at concrete data.
use gny.Prelude.{
  ◌⊎◌, ◌+◌, ◌-◌, ◌≤◌, ◌<◌, ◌≡◌, refl, ◌≢◌, true, false, some, [], ◌∷◌, ◌++◌, arith, ltb,
  if◌then◌else◌, nat_eq, string_eq, option_eq, is_some,
}
use gny.Prelude.Int.{ℤ, pos, negsuc, int_eq}
use gny.Prelude.Map.{lookup, has, insert}
use gny.Interfaces.{Block, Transaction, ok, err}
use gny.Pool.{TransactionPool, empty, add, remove, get, has_id, get_unconfirmed, clear}
use gny.Pool.Slots.{find_id, remove_id}
use gny.Pool.View.{IsValid, empty-IsValid, pool_refines_list}
use gny.Orm.BlockCache.{BlockCache, push, get as get_block, evit_until, is_cached}
use gny.Orm.BlockCache.Window.{IsWindow, single, push_refines, push_first}
use gny.Orm.BlockCache.Evict.{evit_until_cases}
use gny.Tests.Samples.{payment, genesis}

abbrev one : TransactionPool
one = add payment empty

abbrev other : Transaction
other = record payment { id = "other" }

one-IsValid : IsValid one
unfolding has_id lookup
one-IsValid = (pool_refines_list empty "payment" payment empty-IsValid refl).4

pool_refines_list_example :
    (get "payment" one ≡ find_id "payment" (get_unconfirmed one))
    × (has_id "payment" one ≡ is_some (find_id "payment" (get_unconfirmed one)))
    × (get_unconfirmed (add other one) ≡ get_unconfirmed one ++ other ∷ [])
    × (get_unconfirmed (remove "payment" one) ≡ remove_id "payment" (get_unconfirmed one))
    × IsValid (add other one)
    × IsValid (remove "payment" one)
    × IsValid (clear one)
unfolding has_id add lookup insert
pool_refines_list_example = pool_refines_list one "payment" other one-IsValid refl

abbrev cached : BlockCache
cached = single 2 genesis

cached-IsWindow : IsWindow 4 4 cached
cached-IsWindow = (push_first genesis 1).4

abbrev following : Block
following = record genesis { id = "following"; height = 5 }

push_refines_example :
    ((5 ≡ 4 + 1)
      × (d : BlockCache) × (push following cached ≡ ok d)
      × IsWindow (if ltb 2 (4 + 2 - 4) then 4 + 1 else 4) (4 + 1) d
      × (get_block (pos 5) d ≡ some following))
    ⊎ ((5 ≢ 4 + 1) × (push following cached ≡ err "invalid block height"))
push_refines_example = push_refines following 4 4 cached cached-IsWindow (omega arith)

evit_until_cases_example :
    ((4 < 9) × (evit_until (pos 9) cached ≡ cached))
    ⊎ ((4 < 9) × (9 ≤ 4) × IsWindow 4 9 (evit_until (pos 9) cached))
    ⊎ ((9 ≤ 4)
        × ((evit_until (pos 9) cached).max_height ≡ negsuc 0)
        × ((h : ℤ) → is_cached h (evit_until (pos 9) cached) ≡ false)
        × (has (pos 4) (evit_until (pos 9) cached).cache ≡ true))
evit_until_cases_example = evit_until_cases 9 4 4 cached cached-IsWindow
