-- ===== src/Tests/SmartDb.antt =====
-- The theorems on the blocks that smartDB.ts of database-postgres keeps, at concrete data.
use gny.Prelude.{
  ℕ, String, ◌≡◌, refl, true, none, some, [], ◌∷◌, arith, nat_eq, string_eq, option_eq, ◌⊎◌,
}
use gny.Prelude.Int.{pos, ◌+ℤ◌, ◌-ℤ◌, int_eq}
use gny.Prelude.Map.{lookup}
use gny.Interfaces.{Block, ok, err}
use gny.Orm.BlockCache.Window.{single, push_first}
use gny.Orm.Tracker.{cancel_confirm, reject_changes, undo_latest}
use gny.Orm.Versions.{
  attach_history, load_history_until, get_changes_until, collect, rollback_versions,
}
use gny.Orm.Session.{Session, save_changes, rollback_changes}
use gny.Orm.SmartDb.{Outside, SmartDb, commit_block, rollback_block}
use gny.Orm.SmartDb.Heights.{IsDeleted}
use gny.Orm.SmartDb.Tables.{rollback_block-IsDeleted}
use gny.Orm.SmartDb.Commit.{IsBetween, IsCommitted, IsUndone, commit_block_cases}
use gny.Tests.Samples.{genesis}
use gny.Tests.Rows.{lru, schemas, session, database}

abbrev outside : Outside
outside = record {
  pre_commit_block = λ b. ok tt;
  pre_rollback_block = λ from until. ok tt;
  insert_block = λ b. ok tt;
  insert_history = λ height. ok tt;
  transactions_at = λ height. [];
}

abbrev following : Block
following = record genesis { id = "following"; height = 5 }

-- The block at height 5 is begun.
abbrev begun : SmartDb lru schemas
begun = record {
  session = session;
  cached_blocks = single 2 genesis;
  last_block_height = pos 4;
  current_block = some following;
  blocks = genesis ∷ [];
  histories = (pos 4, []) ∷ [];
  check_modifier = true;
}

begun-IsBetween : IsBetween lru schemas 4 4 begun
unfolding lookup
begun-IsBetween = record {
  last = refl;
  window = (push_first genesis 1).4;
  room = omega arith;
  free = refl;
  no_history = refl;
}

commit_block_cases_example :
    (((save_changes lru schemas database (some (pos 5)) session).0 ≡ ok tt)
      × IsCommitted lru schemas following 4 begun (commit_block lru schemas database outside begun))
    ⊎ ((message : String) × ((save_changes lru schemas database (some (pos 5)) session).0
          ≡ err message)
        × IsUndone lru schemas message begun (commit_block lru schemas database outside begun))
commit_block_cases_example =
    commit_block_cases lru schemas database outside 4 4 following begun begun-IsBetween refl refl
      refl refl refl

abbrev at : ℕ → Block
at height = record genesis { height = height }

-- The last block is at height 100, which has three digits.
abbrev at_100 : SmartDb lru schemas
at_100 = record begun {
  session = record session {
    tracker = record session.tracker { min_version = pos 95; current_version = pos 100 };
    session_serial = pos 100;
  };
  last_block_height = pos 100;
  current_block = none;
  blocks = at 98 ∷ at 99 ∷ at 100 ∷ [];
}

abbrev rolled_back : Session lru schemas
rolled_back = (rollback_changes lru schemas database (pos 98) at_100.session).1

goes_through : rollback_changes lru schemas database (pos 98) at_100.session ≡ (ok tt, rolled_back)
unfolding rollback_changes get_changes_until load_history_until collect reject_changes
    cancel_confirm undo_latest rollback_versions attach_history lookup ◌+ℤ◌ ◌-ℤ◌
goes_through = refl

rollback_block-IsDeleted_example :
    IsDeleted lru schemas
      (pos 98)
      (record at_100 { session = rolled_back })
      (rollback_block lru schemas database outside (some (pos 98)) at_100).1
rollback_block-IsDeleted_example =
    rollback_block-IsDeleted lru schemas database outside (pos 98) at_100 rolled_back refl
      (λ from until. refl) goes_through
