-- ===== src/Orm/SmartDb/Tables.antt =====
-- packages/database-postgres/src/smartDB.ts, what `rollbackBlock` leaves of the tables of blocks.
use gny.Prelude.{
  String, ◌≡◌, inl, inr, false, not, ◌&&◌, Option, none, some, arith, nat_eq, string_eq, option_eq,
  Bool-cases, is_some,
}
use gny.Prelude.Int.{ℤ, pos, ◌+ℤ◌, ◌-ℤ◌, ltb_ℤ, leb_ℤ, abs, int_eq, -ℤ_parts, +ℤ_parts, eq_of_parts}
use gny.Prelude.Map.{Map}
use gny.Interfaces.{Block, Result, ok, err, and_then}
use gny.Orm.Schema.{ModelSchema}
use gny.Orm.UniquedCache.{Lru}
use gny.Orm.BlockCache.{BlockCache, push, get}
use gny.Orm.Session.{Database, Session, rollback_changes}
use gny.Orm.SmartDb.{
  Outside, SmartDb, delete_above, get_block_by_height, loaded, ensure_last_block_loaded,
  rollback_block,
}
use gny.Orm.SmartDb.Heights.{IsDeleted, delete_above-IsDeleted}

height_gap :
    (last target : ℤ) → ltb_ℤ last target ≡ false → last ≡ target +ℤ pos (abs (last -ℤ target))
height_gap last target h =
    eq_of_parts last (target +ℤ pos (abs (last -ℤ target)))
      (ground (arith, -ℤ_parts last target, +ℤ_parts target (pos (abs (last -ℤ target)))))

module _ (l : Lru) (schemas : Map String ModelSchema) where
  abbrev finished : Result (Unit {0}) × SmartDb l schemas → SmartDb l schemas
  finished r =
      (and_then r (λ _ (v : SmartDb l schemas). (ok tt, record v { current_block = none }))).1

  cached-IsDeleted :
      (target : ℤ) (d u : SmartDb l schemas) (c : BlockCache) (b : Option Block)
      → IsDeleted l schemas target d u
      → IsDeleted l schemas target d (record u { cached_blocks = c; current_block = b })
  cached-IsDeleted target d u c b i = record {
    stopped = i.stopped;
    passed = i.passed;
    not_below = i.not_below;
    not_above = i.not_above;
    blocks = i.blocks;
    histories = i.histories;
    session = i.session;
  }

  pushed-IsDeleted :
      (target : ℤ) (d u : SmartDb l schemas) (r : Result BlockCache)
      → IsDeleted l schemas target d u
      → IsDeleted l schemas target d (
          finished (elim r as (λ _. Result (Unit {0}) × SmartDb l schemas) [
            | err message ↦ (err message, u)
            | ok c ↦ (ok tt, record u { cached_blocks = c })
          ]))
  pushed-IsDeleted target d u (err message) i = i
  pushed-IsDeleted target d u (ok c) i = cached-IsDeleted target d u c none i

  loaded-IsDeleted :
      (target : ℤ) (d u : SmartDb l schemas) (found : Result (Option Block))
      → IsDeleted l schemas target d u
      → IsDeleted l schemas target d (finished (loaded l schemas found u))
  loaded-IsDeleted target d u (err message) i = i
  loaded-IsDeleted target d u (ok none) i = i
  loaded-IsDeleted target d u (ok (some b)) i =
      pushed-IsDeleted target d u (push b u.cached_blocks) i

  ensured-IsDeleted :
      (o : Outside) (target : ℤ) (d u : SmartDb l schemas)
      → IsDeleted l schemas target d u
      → IsDeleted l schemas target d (finished (ensure_last_block_loaded l schemas o u))
  unfolding ensure_last_block_loaded
  ensured-IsDeleted o target d u i =
      elim (Bool-cases (
        not (is_some (get u.last_block_height u.cached_blocks))
        && leb_ℤ (pos 0) u.last_block_height)) [
          | inl absent ↦
              rw (absent, ensure_last_block_loaded)
                (loaded-IsDeleted target d u (get_block_by_height l schemas o u.last_block_height u)
                  i)
          | inr there ↦
              rw (there, ensure_last_block_loaded)
                (cached-IsDeleted target d u u.cached_blocks none i)
        ]

  -- What `rollbackBlock` to a height not above the last one does to the tables, where its hook and the session let
  -- it: the session is the one that was rolled back, and, whether or not the last block can then be loaded, blocks
  -- and histories are deleted from the last height down to the first one whose decimal text does not come after
  -- the target's. All heights above that one are gone, and all others as they were.
  pub rollback_block-IsDeleted :
      (db : Database) (o : Outside) (target : ℤ) (d : SmartDb l schemas) (s : Session l schemas)
      → ltb_ℤ d.last_block_height target ≡ false
      → ((from until : ℤ) → o.pre_rollback_block from until ≡ ok tt)
      → rollback_changes l schemas db target d.session ≡ (ok tt, s)
      → IsDeleted l schemas target
          (record d { session = s })
          (rollback_block l schemas db o (some target) d).1
  unfolding rollback_block
  rollback_block-IsDeleted db o target d s reached passes back =
      let u = record d { session = s } in
      let n = abs (d.last_block_height -ℤ target) in
      rw (reached, passes _ _, back)
        (ensured-IsDeleted o target u (delete_above l schemas n target u) (
          delete_above-IsDeleted l schemas n target u
            (height_gap d.last_block_height target reached)))
