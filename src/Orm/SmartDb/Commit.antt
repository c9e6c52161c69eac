-- ===== src/Orm/SmartDb/Commit.antt =====
-- packages/database-postgres/src/smartDB.ts, `commitBlock`: all of a block is stored, or nothing of it.
use gny.Prelude.{
  ℕ, ◌+◌, ◌<◌, String, ◌≡◌, refl, sym, ap, ◌∙◌, inl, inr, Option, none, some, List, [], ◌∷◌, ◌++◌,
  arith, if◌then◌else◌, ◌==◌, nat_eq, string_eq, option_eq, Bool-cases, ◌⊎◌,
}
use gny.Prelude.Int.{ℤ, pos, ◌+ℤ◌, ◌-ℤ◌, int_laws, int_eq, eqb_ℤ_iff}
use gny.Prelude.Map.{Map, lookup, insert, erase, lookup-insert, lookup-erase}
use mathlib.Core.Path.{subst}
use gny.Interfaces.{Block, Result, ok, err, Result-cases}
use gny.Orm.Schema.{ModelSchema}
use gny.Orm.UniquedCache.{Lru}
use gny.Orm.BlockCache.{get}
use gny.Orm.BlockCache.Window.{IsWindow, push_taken}
use gny.Orm.Session.{Database, Session, save_changes}
use gny.Orm.SmartDb.{
  Outside, SmartDb, without_height, block_at, stored, saved_or_deleted, commit_block,
}
use gny.Orm.SmartDb.Heights.{block_at-without_height}

block_at-snoc :
    (h : ℤ) (b : Block) (bs : List Block)
    → block_at (pos b.height) bs ≡ none
    → block_at h (bs ++ b ∷ []) ≡ (if pos b.height == h then some b else block_at h bs)
block_at-snoc h b [] free = refl
block_at-snoc h b (c ∷ bs) free = elim (Bool-cases (pos c.height == pos b.height)) [
  | inl same ↦ cc (rw same at free)
  | inr other ↦ ground (
    arith,
    other,
    eqb_ℤ_iff (pos c.height) (pos b.height),
    eqb_ℤ_iff (pos c.height) h,
    eqb_ℤ_iff (pos b.height) h,
    block_at-snoc h b bs (rw other at free),
  )
]

restored :
    {A : Type 0} (here h : ℤ) (x y z : Option A) (new : A)
    → z ≡ (if here == h then none else y)
    → y ≡ (if here == h then some new else x)
    → (here ≡ h → x ≡ none)
    → z ≡ x
restored here h x y z new e d free = ground (arith, eqb_ℤ_iff here h)

plus_one : (n : ℕ) → pos n +ℤ pos 1 ≡ pos (n + 1)
plus_one n = omega int_laws

there_and_back : (m : ℤ) → m +ℤ pos 1 -ℤ pos 1 ≡ m
there_and_back m = omega int_laws

module _ (l : Lru) (schemas : Map String ModelSchema) where
  -- The state between two blocks: the blocks up to the last height n are stored, those from lo on are cached, and
  -- there is room for one.
  pub record IsBetween (lo n : ℕ) (d : SmartDb l schemas) : Type 0 where
    pub last : d.last_block_height ≡ pos n
    pub window : IsWindow lo n d.cached_blocks
    pub room : 0 < d.cached_blocks.max_cached_count
    pub free : block_at (pos (n + 1)) d.blocks ≡ none
    pub no_history : lookup (pos (n + 1)) d.histories ≡ none

  pub record IsCommitted (b : Block) (n : ℕ) (d : SmartDb l schemas)
      (r : Result (Unit {0}) × SmartDb l schemas) : Type 0 where
    pub done : r.0 ≡ ok tt
    pub last : r.1.last_block_height ≡ pos (n + 1)
    pub current : r.1.current_block ≡ none
    pub blocks :
        (h : ℤ)
        → block_at h r.1.blocks
          ≡ (if pos (n + 1) == h then some (stored b) else block_at h d.blocks)
    pub histories :
        (h : ℤ)
        → lookup h r.1.histories ≡ (
            if pos (n + 1) == h
            then some d.session.tracker.confirmed_changes
            else lookup h d.histories)
    pub low : ℕ
    pub window : IsWindow low (n + 1) r.1.cached_blocks
    pub newest : get (pos (n + 1)) r.1.cached_blocks ≡ some b

  pub record IsUndone (message : String) (d : SmartDb l schemas)
      (r : Result (Unit {0}) × SmartDb l schemas) : Type 0 where
    pub failed : r.0 ≡ err message
    pub last : r.1.last_block_height ≡ d.last_block_height
    pub current : r.1.current_block ≡ d.current_block
    pub cached : r.1.cached_blocks ≡ d.cached_blocks
    pub blocks : (h : ℤ) → block_at h r.1.blocks ≡ block_at h d.blocks
    pub histories : (h : ℤ) → lookup h r.1.histories ≡ lookup h d.histories

  module _ (lo n : ℕ) (b : Block) (d : SmartDb l schemas) (settled : IsBetween lo n d)
      (next : b.height ≡ n + 1) where
    abbrev appended : SmartDb l schemas
    appended = record d {
      blocks = d.blocks ++ stored b ∷ [];
      histories = insert (pos b.height) d.session.tracker.confirmed_changes d.histories;
      last_block_height = d.last_block_height +ℤ pos 1;
    }

    appended-blocks :
        (h : ℤ)
        → block_at h appended.blocks
          ≡ (if pos b.height == h then some (stored b) else block_at h d.blocks)
    appended-blocks h =
        block_at-snoc h (stored b) d.blocks
          (ap (λ m. block_at (pos m) d.blocks) next ∙ settled.free)

    committed :
        (s : Session l schemas)
        → IsCommitted b n d (saved_or_deleted l schemas b (ok tt, s) appended)
    committed s =
        let (c, pushed, window, newest) =
          push_taken b lo n d.cached_blocks settled.window settled.room next in
        rw pushed (record {
          done = refl;
          last = ap (λ m. m +ℤ pos 1) settled.last ∙ plus_one n;
          current = refl;
          blocks = λ h.
              subst
                (λ m.
                  block_at h appended.blocks
                  ≡ (if pos m == h then some (stored b) else block_at h d.blocks))
                next (appended-blocks h);
          histories = λ h.
              subst
                (λ m. lookup h appended.histories ≡ (
                  if pos m == h
                  then some d.session.tracker.confirmed_changes
                  else lookup h d.histories))
                next
                (lookup-insert h (pos b.height) d.session.tracker.confirmed_changes d.histories);
          low = _;
          window = window;
          newest = subst (λ m. get (pos m) c ≡ some b) next newest;
        })

    undone :
        (message : String) (s : Session l schemas)
        → IsUndone message d (saved_or_deleted l schemas b (err message, s) appended)
    undone message s = record {
      failed = refl;
      last = there_and_back d.last_block_height;
      current = refl;
      cached = refl;
      blocks = λ h.
          restored (pos b.height) h (block_at h d.blocks) (block_at h appended.blocks)
            (block_at h (without_height (pos b.height) appended.blocks)) (stored b)
            (block_at-without_height h (pos b.height) appended.blocks) (appended-blocks h)
            (λ here. ap (λ x. block_at x d.blocks) (sym here ∙ ap pos next) ∙ settled.free);
      histories = λ h.
          restored (pos b.height) h (lookup h d.histories) (lookup h appended.histories)
            (lookup h (erase (pos b.height) appended.histories)) d.session.tracker.confirmed_changes
            (lookup-erase h (pos b.height) appended.histories)
            (lookup-insert h (pos b.height) d.session.tracker.confirmed_changes d.histories)
            (λ here. ap (λ x. lookup x d.histories) (sym here ∙ ap pos next) ∙ settled.no_history);
    }

    commit_block-eq :
        (db : Database) (o : Outside)
        → d.current_block ≡ some b
        → o.pre_commit_block b ≡ ok tt
        → o.insert_block (stored b) ≡ ok tt
        → o.insert_history (pos b.height) ≡ ok tt
        → commit_block l schemas db o d
          ≡ saved_or_deleted l schemas b
              (save_changes l schemas db (some (pos b.height)) d.session)
              appended
    unfolding commit_block
    commit_block-eq db o begun hook row history = rw (begun, hook, row, history) refl

  -- `commitBlock` stores all of a block, or nothing of it. Between two blocks, with the block after the last one
  -- begun, a hook that lets it and a database that takes its two rows: either the session saves its changes, and
  -- the block is stored without its transactions, the confirmed changes are its history, all other rows are as
  -- before, it is the last and the newest cached block, and no block is begun; or the session throws, `commitBlock`
  -- throws the same, and the last height, both tables at every height, the cached blocks and the begun block
  -- are as before.
  pub commit_block_cases :
      (db : Database) (o : Outside) (lo n : ℕ) (b : Block) (d : SmartDb l schemas)
      → IsBetween lo n d
      → d.current_block ≡ some b
      → b.height ≡ n + 1
      → o.pre_commit_block b ≡ ok tt
      → o.insert_block (stored b) ≡ ok tt
      → o.insert_history (pos b.height) ≡ ok tt
      → (((save_changes l schemas db (some (pos b.height)) d.session).0 ≡ ok tt)
          × IsCommitted b n d (commit_block l schemas db o d))
        ⊎ ((message : String) × ((save_changes l schemas db (some (pos b.height)) d.session).0
              ≡ err message)
            × IsUndone message d (commit_block l schemas db o d))
  commit_block_cases db o lo n b d settled begun next hook row history =
      let saved = save_changes l schemas db (some (pos b.height)) d.session in
      let ends : (x : Result (Unit {0}))
          → saved.0 ≡ x
          → commit_block l schemas db o d
            ≡ saved_or_deleted l schemas b (x, saved.1) (appended lo n b d settled next) =
        λ x same.
          commit_block-eq lo n b d settled next db o begun hook row history
          ∙ ap (λ r. saved_or_deleted l schemas b (r, saved.1) (appended lo n b d settled next))
              same in
      elim (Result-cases saved.0) [
        | inl (_, done) ↦ inl (
          done,
          subst (IsCommitted b n d) (sym (ends (ok tt) done))
              (committed lo n b d settled next saved.1),
        )
        | inr (message, failed) ↦ inr (
          message,
          failed,
          subst (IsUndone message d) (sym (ends (err message) failed))
              (undone lo n b d settled next message saved.1),
        )
      ]
