-- ===== src/Orm/BlockCache/Window.antt =====
-- The block cache holds exactly the blocks of one range of heights.
use gny.Prelude.{
  ℕ, suc, ◌+◌, ◌-◌, ◌≤◌, ◌<◌, ◌≡◌, refl, ap, ◌≢◌, inl, inr, true, false, ◌&&◌, some, [], ◌∷◌, arith,
  ltb, if◌then◌else◌, nat_eq, string_eq, Bool-cases, length, Distinct, ◌⊎◌, nat_beq_iff, ◌==◌,
}
use gny.Prelude.Int.{ℤ, pos, negsuc, ◌+ℤ◌, leb_ℤ, int_eq}
use gny.Prelude.Map.{
  Map, lookup, has, insert, erase, lookup-insert, lookup-erase, keys, length-insert_new,
  length-erase, Distinct-erase, Distinct-insert_new,
}
use mathlib.Core.Path.{subst}
use gny.Prelude.Int.{+ℤ_parts, eq_of_parts}
use gny.Interfaces.{Block, ok, err}
use gny.Orm.BlockCache.{BlockCache, new, push, get}

-- The cache holds one block for each height from lo to hi, under its own height, and no other.
pub record IsWindow (lo hi : ℕ) (c : BlockCache) : Type 0 where
  pub low : c.min_height ≡ pos lo
  pub high : c.max_height ≡ pos hi
  pub ordered : lo ≤ hi
  pub holds : (h : ℤ) → has h c.cache ≡ (leb_ℤ (pos lo) h && leb_ℤ h (pos hi))
  pub own : (h : ℤ) (b : Block) → lookup h c.cache ≡ some b → h ≡ pos b.height
  pub distinct : Distinct (keys c.cache)
  pub size : length c.cache + lo ≡ hi + 1
  pub bounded : length c.cache ≤ c.max_cached_count

module _ (b : Block) (lo hi : ℕ) (c : BlockCache) (w : IsWindow lo hi c) where
  -- The map of the cache after the block is set, and before the oldest is dropped.
  grown : Map ℤ Block
  grown = insert (pos b.height) b c.cache

  grown-holds :
      b.height ≡ hi + 1 → (h : ℤ) → has h grown ≡ (leb_ℤ (pos lo) h && leb_ℤ h (pos (hi + 1)))
  unfolding grown
  grown-holds e h = ground (arith, lookup-insert h (pos b.height) b c.cache, w.holds h, w.ordered)

  grown-own : (h : ℤ) (d : Block) → lookup h grown ≡ some d → h ≡ pos d.height
  unfolding grown
  grown-own h d f = ground (arith, lookup-insert h (pos b.height) b c.cache, w.own h d)

  grown_size : b.height ≡ hi + 1 → length grown + lo ≡ hi + 2
  unfolding grown
  grown_size e =
      ground (arith, length-insert_new (pos b.height) b c.cache, w.holds (pos b.height), w.size)

  -- The cache when nothing has to be dropped, and when the oldest block is.
  kept : BlockCache
  unfolding grown
  kept = record c { cache = grown; max_height = pos b.height }

  trimmed : BlockCache
  unfolding grown
  trimmed = record c {
    cache = erase c.min_height grown;
    min_height = c.min_height +ℤ pos 1;
    max_height = pos b.height;
  }

  push_cases :
      b.height ≡ hi + 1
      → push b c ≡ ok (if ltb c.max_cached_count (length grown) then trimmed else kept)
  unfolding push kept trimmed ◌+ℤ◌
  push_cases e = ground (arith, w.low, w.high)

  kept-IsWindow : b.height ≡ hi + 1 → length grown ≤ c.max_cached_count → IsWindow lo (hi + 1) kept
  unfolding kept
  kept-IsWindow e fits = record {
    low = w.low;
    high = ap pos e;
    ordered = omega (arith, w.ordered);
    holds = grown-holds e;
    own = grown-own;
    distinct = Distinct-insert_new (pos b.height) b c.cache w.distinct absent;
    size = omega (arith, grown_size e);
    bounded = fits;
  }
    where
      absent : has (pos b.height) c.cache ≡ false
      absent = ground (arith, w.holds (pos b.height))

  trimmed-IsWindow :
      b.height ≡ hi + 1
      → c.max_cached_count < length grown
      → 0 < c.max_cached_count
      → IsWindow (lo + 1) (hi + 1) trimmed
  unfolding trimmed
  trimmed-IsWindow e full some_room = record {
    low = ground (
      arith,
      w.low,
      +ℤ_parts c.min_height (pos 1),
      eq_of_parts (c.min_height +ℤ pos 1) (pos (lo + 1)),
    );
    high = ap pos e;
    ordered = omega (arith, w.ordered);
    holds = λ h. ground (arith, lookup-erase h c.min_height grown, grown-holds e h, w.low);
    own = λ h d f. ground (arith, lookup-erase h c.min_height grown, grown-own h d);
    distinct = Distinct-erase c.min_height grown grown-Distinct;
    size = omega (arith, dropped, grown_size e);
    bounded = omega (arith, dropped, grown_size e, w.size, w.bounded);
  }
    where
      absent : has (pos b.height) c.cache ≡ false
      absent = ground (arith, w.holds (pos b.height))

      grown-Distinct : Distinct (keys grown)
      grown-Distinct =
          unfold grown in Distinct-insert_new (pos b.height) b c.cache w.distinct absent

      oldest : has c.min_height grown ≡ true
      oldest = ground (arith, grown-holds e c.min_height, w.low, w.ordered)

      dropped : suc (length (erase c.min_height grown)) ≡ length grown
      dropped = length-erase c.min_height grown grown-Distinct oldest

  newest_trimmed : b.height ≡ hi + 1 → get (pos b.height) trimmed ≡ some b
  unfolding trimmed grown
  newest_trimmed e = ground (
    arith,
    lookup-erase (pos b.height) c.min_height grown,
    lookup-insert (pos b.height) (pos b.height) b c.cache,
    w.low,
    w.ordered,
  )

  -- The lowest height that is left once `push` is done.
  pub low_after : ℕ
  low_after = if ltb c.max_cached_count (hi + 2 - lo) then lo + 1 else lo

  pub push_next :
      b.height ≡ hi + 1
      → 0 < c.max_cached_count
      → (d : BlockCache) × (push b c ≡ ok d)
        × IsWindow low_after (hi + 1) d
        × (get (pos b.height) d ≡ some b)
  unfolding low_after
  push_next e some_room = elim (Bool-cases (ltb c.max_cached_count (length grown))) [
    | inl full ↦ (
      trimmed,
      rw full at (push_cases e),
      subst (λ n. IsWindow n (hi + 1) trimmed) (ground (arith, grown_size e))
          (trimmed-IsWindow e (ground arith) some_room),
      newest_trimmed e,
    )
    | inr fits ↦ (
      kept,
      rw fits at (push_cases e),
      subst (λ n. IsWindow n (hi + 1) kept) (ground (arith, grown_size e))
          (kept-IsWindow e (ground arith)),
      unfold kept grown in ground (arith, lookup-insert (pos b.height) (pos b.height) b c.cache),
    )
  ]

  -- Any other height is refused, and nothing changes.
  pub push_other : b.height ≢ hi + 1 → push b c ≡ err "invalid block height"
  unfolding push ◌+ℤ◌
  push_other ne = ground (arith, w.high)

pub push_taken :
    (b : Block) (lo hi : ℕ) (c : BlockCache)
    → IsWindow lo hi c
    → 0 < c.max_cached_count
    → b.height ≡ hi + 1
    → (d : BlockCache) × (push b c ≡ ok d)
      × IsWindow (if ltb c.max_cached_count (hi + 2 - lo) then lo + 1 else lo) (hi + 1) d
      × (get (pos b.height) d ≡ some b)
push_taken b lo hi c w room e = unfold low_after in push_next b lo hi c w e room

-- What `push` does to a cache of the blocks from lo to hi that may hold at least one block. The block
-- of height hi + 1 is taken: the cache then holds exactly the blocks up to it, from lo on or, where
-- that would be one too many, from lo + 1 on, and returns the new block at its height. A block of any
-- other height is refused.
pub push_refines :
    (b : Block) (lo hi : ℕ) (c : BlockCache)
    → IsWindow lo hi c
    → 0 < c.max_cached_count
    → ((b.height ≡ hi + 1)
        × (d : BlockCache) × (push b c ≡ ok d)
        × IsWindow (if ltb c.max_cached_count (hi + 2 - lo) then lo + 1 else lo) (hi + 1) d
        × (get (pos b.height) d ≡ some b))
      ⊎ ((b.height ≢ hi + 1) × (push b c ≡ err "invalid block height"))
push_refines b lo hi c w room = elim (Bool-cases (b.height == hi + 1)) [
  | inl next ↦
      let e = (nat_beq_iff b.height (hi + 1)).0 next in
      let (d, taken, window, newest) = push_taken b lo hi c w room e in
      inl (e, d, taken, window, newest)
  | inr other ↦
      let ne : b.height ≢ hi + 1 = λ e. cc ((nat_beq_iff b.height (hi + 1)).1 e, other) in
      inr (ne, push_other b lo hi c w ne)
]

abbrev pub fresh : ℕ → BlockCache
fresh n = record { cache = []; min_height = negsuc 0; max_height = negsuc 0; max_cached_count = n }

abbrev pub single : ℕ → Block → BlockCache
single n b = record {
  cache = (pos b.height, b) ∷ [];
  min_height = pos b.height;
  max_height = pos b.height;
  max_cached_count = n;
}

single-IsWindow : (n : ℕ) (b : Block) → IsWindow b.height b.height (single (suc n) b)
single-IsWindow n b = record {
  low = refl;
  high = refl;
  ordered = omega arith;
  holds = λ h. unfold lookup in ground arith;
  own = λ h d f. unfold_own h d f;
  distinct = (refl, tt);
  size = omega arith;
  bounded = omega arith;
}
  where
    unfold_own : (h : ℤ) (d : Block) → lookup h ((pos b.height, b) ∷ []) ≡ some d → h ≡ pos d.height
    unfold_own h d = unfold lookup in λ f. ground arith

-- A cache is made for any positive number of blocks and for no other number, and its first block may
-- have any height: the cache then holds exactly that block.
pub push_first :
    (b : Block) (n : ℕ)
    → (new (pos (suc n)) ≡ ok (fresh (suc n)))
      × (new (pos 0) ≡ err "please provide a positive integer")
      × (new (negsuc n) ≡ err "please provide a positive integer")
      × (push b (fresh (suc n)) ≡ ok (single (suc n) b))
      × IsWindow b.height b.height (single (suc n) b)
unfolding new push insert
push_first b n = (ground arith, ground arith, ground arith, ground arith, single-IsWindow n b)
