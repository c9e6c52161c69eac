-- ===== src/Orm/BlockCache/Evict.antt =====
-- `evitUntil` shortens the range of a block cache from above.
use gny.Prelude.{
  ℕ, zero, suc, ◌+◌, ◌-◌, ◌≤◌, ◌<◌, ◌≡◌, refl, inl, inr, true, false, ◌&&◌, none, arith, leb,
  if◌then◌else◌, nat_eq, string_eq, Bool-cases, length, Distinct, ◌⊎◌, ltb,
}
use gny.Prelude.Int.{ℤ, pos, negsuc, pos_part, ◌+ℤ◌, ◌-ℤ◌, leb_ℤ, int_laws, int_eq}
use gny.Prelude.Map.{Map, lookup, has, erase, lookup-erase, keys, length-erase, Distinct-erase}
use gny.Interfaces.{Block}
use gny.Orm.BlockCache.{BlockCache, is_cached, evit_loop, evit_until}
use gny.Orm.BlockCache.Window.{IsWindow}

pos_suc : (a : ℕ) → pos a +ℤ pos 1 ≡ pos (a + 1)
pos_suc a = omega int_laws

-- With as many rounds as there are heights left, the loop deletes just the heights from a to l.
lookup-evit_loop :
    (fuel a l : ℕ) (m : Map ℤ Block) (h : ℤ)
    → l < a + fuel
    → lookup h (evit_loop fuel (pos a) (pos l) m)
      ≡ (if leb_ℤ (pos a) h && leb_ℤ h (pos l) then none else lookup h m)
unfolding evit_loop
lookup-evit_loop zero a l m h enough = ground arith
lookup-evit_loop (suc fuel) a l m h enough =
    rw (pos_suc a) (
      ground (arith, lookup-evit_loop fuel (a + 1) l (erase (pos a) m) h, lookup-erase h (pos a) m))

evit_loop-Distinct :
    (fuel : ℕ) (at last : ℤ) (m : Map ℤ Block)
    → Distinct (keys m)
    → Distinct (keys (evit_loop fuel at last m))
unfolding evit_loop
evit_loop-Distinct zero at last m d = d
evit_loop-Distinct (suc fuel) at last m d = ground (
  arith,
  Distinct-erase at m d,
  evit_loop-Distinct fuel (at +ℤ pos 1) last (erase at m) (Distinct-erase at m d),
)

-- One height fewer for each that is deleted.
length-evit_loop :
    (fuel a l : ℕ) (m : Map ℤ Block)
    → l < a + fuel
    → a ≤ l + 1
    → Distinct (keys m)
    → ((h : ℕ) → a ≤ h → h ≤ l → has (pos h) m ≡ true)
    → length (evit_loop fuel (pos a) (pos l) m) + (l + 1) ≡ length m + a
unfolding evit_loop
length-evit_loop zero a l m enough le d all = omega arith
length-evit_loop (suc fuel) a l m enough le d all = rw (pos_suc a) (elim (Bool-cases (leb a l)) [
  | inl more ↦ ground (
    arith,
    length-erase (pos a) m d,
    all a,
    length-evit_loop fuel (a + 1) l (erase (pos a) m) (omega arith) (ground arith)
        (Distinct-erase (pos a) m d)
        (λ h from to. ground (arith, lookup-erase (pos h) (pos a) m, all h)),
  )
  | inr done ↦ ground arith
])

sub_pos : (a b : ℕ) → b ≤ a → pos a -ℤ pos b ≡ pos (a - b)
unfolding ◌-ℤ◌
sub_pos a b le = ground arith

module _ (m lo hi : ℕ) (c : BlockCache) (w : IsWindow lo hi c) where
  loop_rounds : m ≤ hi → pos_part (c.max_height -ℤ pos m) ≡ hi - m
  loop_rounds le = rw (w.high, sub_pos hi m le)

  cut : Map ℤ Block
  cut = evit_loop (hi - m) (pos (m + 1)) (pos hi) c.cache

  -- Above the range nothing happens.
  pub evit_until_above : hi < m → evit_until (pos m) c ≡ c
  unfolding evit_until
  evit_until_above h = ground (arith, w.high)

  evit_until_inside :
      lo < m → m ≤ hi → evit_until (pos m) c ≡ record c { cache = cut; max_height = pos m }
  unfolding evit_until cut
  evit_until_inside above le = ground (arith, w.low, w.high, loop_rounds le, pos_suc m)

  -- Inside the range the cache keeps just the blocks up to the given height.
  pub evit_until-IsWindow : lo < m → m ≤ hi → IsWindow lo m (evit_until (pos m) c)
  evit_until-IsWindow above le = rw (evit_until_inside above le) (record {
    low = w.low;
    high = refl;
    ordered = omega arith;
    holds = λ h. ground (arith, kept_at h, w.holds h);
    own = λ h b f. ground (arith, kept_at h, w.own h b);
    distinct = unfold cut in evit_loop-Distinct (hi - m) (pos (m + 1)) (pos hi) c.cache w.distinct;
    size = omega (arith, cut_size, w.size);
    bounded = omega (arith, cut_size, w.size, w.bounded);
  })
    where
      kept_at :
          (h : ℤ)
          → lookup h cut
            ≡ (if leb_ℤ (pos (m + 1)) h && leb_ℤ h (pos hi) then none else lookup h c.cache)
      kept_at h = unfold cut in lookup-evit_loop (hi - m) (m + 1) hi c.cache h (omega arith)

      cut_size : length cut + (hi + 1) ≡ length c.cache + (m + 1)
      cut_size =
          unfold cut in
          length-evit_loop (hi - m) (m + 1) hi c.cache (omega arith) (omega arith) w.distinct
            (λ h from to. ground (arith, w.holds (pos h)))

  leftover : Map ℤ Block
  leftover = evit_loop (hi - lo) (pos (lo + 1)) (pos hi) c.cache

  evit_until_lowest :
      m ≤ lo
      → evit_until (pos m) c
        ≡ record c { cache = leftover; min_height = negsuc 0; max_height = negsuc 0 }
  unfolding evit_until leftover
  evit_until_lowest le =
      rw (w.low, w.high) (ground (arith, pos_suc lo, pos_suc m, sub_pos hi lo w.ordered, w.ordered))

  leftover_oldest : has (pos lo) leftover ≡ true
  unfolding leftover
  leftover_oldest =
      ground (
        arith,
        lookup-evit_loop (hi - lo) (lo + 1) hi c.cache (pos lo),
        w.holds (pos lo),
        w.ordered,
      )

evit_until_lowest_cases :
    (m lo hi : ℕ) (c : BlockCache)
    → IsWindow lo hi c
    → m ≤ lo
    → ((evit_until (pos m) c).max_height ≡ negsuc 0)
      × ((h : ℤ) → is_cached h (evit_until (pos m) c) ≡ false)
      × (has (pos lo) (evit_until (pos m) c).cache ≡ true)
evit_until_lowest_cases m lo hi c w le =
    rw (evit_until_lowest m lo hi c w le) (refl, λ h. ground arith, leftover_oldest m lo hi c w)

-- What `evitUntil(m)` does to a cache of the blocks from lo to hi. Above hi it changes nothing. From
-- lo + 1 to hi it leaves exactly the blocks from lo to m. At lo or below no height counts as cached
-- any more, and the range is empty, but the block at lo itself is still in the map.
pub evit_until_cases :
    (m lo hi : ℕ) (c : BlockCache)
    → IsWindow lo hi c
    → ((hi < m) × (evit_until (pos m) c ≡ c))
      ⊎ ((lo < m) × (m ≤ hi) × IsWindow lo m (evit_until (pos m) c))
      ⊎ ((m ≤ lo)
          × ((evit_until (pos m) c).max_height ≡ negsuc 0)
          × ((h : ℤ) → is_cached h (evit_until (pos m) c) ≡ false)
          × (has (pos lo) (evit_until (pos m) c).cache ≡ true))
evit_until_cases m lo hi c w = elim (Bool-cases (ltb hi m)) [
  | inl above ↦ let gt : hi < m = ground arith in inl (gt, evit_until_above m lo hi c w gt)
  | inr within ↦ inr (elim (Bool-cases (ltb lo m)) [
    | inl inside ↦
        let gt : lo < m = ground arith in
        let le : m ≤ hi = ground arith in inl (gt, le, evit_until-IsWindow m lo hi c w gt le)
    | inr low ↦
        let le : m ≤ lo = ground arith in
        let lowest = evit_until_lowest_cases m lo hi c w le in
        inr (le, lowest.0, lowest.1, lowest.2)
  ])
]
