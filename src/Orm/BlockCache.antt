-- ===== src/Orm/BlockCache.antt =====
-- packages/database-postgres/src/blockCache.ts, `class BlockCache`: the newest blocks by height. The
-- range is -1 to -1 while it is empty.
use gny.Prelude.{
  ℕ, zero, suc, ◌+◌, ◌-◌, String, ap, Bool, not, ◌&&◌, Option, none, some, [], ◌∷◌, arith, ltb, leb,
  if◌then◌else◌, ◌==◌, nat_eq, string_eq, length,
}
use gny.Prelude.Int.{ℤ, pos, negsuc, pos_part, ◌+ℤ◌, ◌-ℤ◌, ltb_ℤ, leb_ℤ, eqb_ℤ, abs, int_eq}
use gny.Prelude.Map.{Map, lookup, insert, erase}
pub mod Window
pub mod Evict
use gny.Interfaces.{Block, Result, ok, err}

pub record BlockCache : Type 0 where
  pub cache : Map ℤ Block
  pub min_height : ℤ
  pub max_height : ℤ
  pub max_cached_count : ℕ

-- `constructor(maxCached)`
pub new : ℤ → Result BlockCache
new max_cached =
    if ltb_ℤ (pos 0) max_cached
    then ok (record {
      cache = [];
      min_height = negsuc 0;
      max_height = negsuc 0;
      max_cached_count = abs max_cached;
    })
    else err "please provide a positive integer"

-- `isCached(height)`
abbrev pub is_cached : ℤ → BlockCache → Bool
is_cached height c = leb_ℤ (pos 0) height && leb_ℤ c.min_height height && leb_ℤ height c.max_height

-- The end of `push`: drop the oldest block where there are too many.
trim : BlockCache → BlockCache
trim c =
    if ltb c.max_cached_count (length c.cache)
    then record c { cache = erase c.min_height c.cache; min_height = c.min_height +ℤ pos 1 }
    else c

-- `push(block)`
unfoldable pub push : Block → BlockCache → Result BlockCache
unfolding trim
push block c =
    if leb_ℤ (pos 0) c.max_height && not (eqb_ℤ (c.max_height +ℤ pos 1) (pos block.height))
    then err "invalid block height"
    else ok (
        trim (record c {
          cache = insert (pos block.height) block c.cache;
          max_height = pos block.height;
          min_height = if eqb_ℤ (negsuc 0) c.min_height then pos block.height else c.min_height;
        }))

-- `get(height)`
abbrev pub get : ℤ → BlockCache → Option Block
get height c = lookup height c.cache

find_block : String → Map ℤ Block → Option Block
find_block block_id [] = none
find_block block_id ((h, b) ∷ m) = if b.id == block_id then some b else find_block block_id m

-- `getById(blockId)`
pub get_by_id : String → BlockCache → Option Block
unfolding find_block
get_by_id block_id c = find_block block_id c.cache

-- The loop of `evitUntil`: deletes `at`, `at + 1`, … up to `last`. The fuel is the rounds allowed.
unfoldable pub evit_loop : ℕ → ℤ → ℤ → Map ℤ Block → Map ℤ Block
evit_loop zero at last m = m
evit_loop (suc fuel) at last m =
    let rest = evit_loop fuel (at +ℤ pos 1) last (erase at m) in if leb_ℤ at last then rest else m

-- `evitUntil(minEvitHeight)`
unfoldable pub evit_until : ℤ → BlockCache → BlockCache
evit_until min_evit_height c =
    if ltb_ℤ c.max_height min_evit_height
    then c
    else let height =
        if leb_ℤ c.min_height min_evit_height then min_evit_height else c.min_height in
      let lowest = if eqb_ℤ height c.min_height then negsuc 0 else c.min_height in
      record c {
        cache =
            evit_loop (pos_part (c.max_height -ℤ height)) (height +ℤ pos 1) c.max_height c.cache;
        min_height = lowest;
        max_height = if eqb_ℤ (negsuc 0) lowest then negsuc 0 else height;
      }
