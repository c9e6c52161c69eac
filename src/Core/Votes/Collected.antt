-- ===== src/Core/Votes/Collected.antt =====
-- What is collected for the pending block: verified votes, at most one for each public key.
use gny.Prelude.{
  ℕ, String, ◌≡◌, refl, sym, ap, ◌∙◌, Bool, true, false, not, ◌&&◌, Option, none, some, List, [],
  ◌∷◌, ◌++◌, map, arith, eq_iff, if◌then◌else◌, ◌==◌, nat_eq, string_eq, option_eq, All, contains,
  Distinct, contains-append, Distinct-snoc,
}
use gny.Prelude.Int.{int_eq}
use gny.Prelude.Map.{Map, lookup, insert, lookup-insert}
use mathlib.Core.List.{map-append}
use gny.Interfaces.{Block, ManyVotes, Signature}
use gny.Base.Platform.{Platform}
use gny.Base.Consensus.{verify_vote}
use gny.Core.State.{State, marked}
use gny.Core.Votes.{push_vote, add_vote, add_votes, add_pending_votes, clear_state}

-- The signatures that are collected so far.
abbrev pub collected : State → List Signature
collected s = elim s.pending_votes [ none ↦ [] | some votes ↦ votes.signatures ]

abbrev pub voters : List Signature → List String
voters = map (λ item. item.public_key)

module _ (p : Platform) (height : ℕ) (id : String) where
  -- For the block of this height and id: the key set holds just the keys of the collected votes,
  -- each key has one vote, every vote verifies, and the votes are for this block.
  pub record IsCollected (s : State) : Type 0 where
    pub keyed : (key : String) → marked key s.votes_key_set ≡ contains (voters (collected s)) key
    pub single : Distinct (voters (collected s))
    pub verified : All (λ item. verify_vote p height id item ≡ true) (collected s)
    pub about :
        (votes : ManyVotes)
        → s.pending_votes ≡ some votes
        → (votes.height ≡ height) × (votes.id ≡ id)

  -- The abstract run: of the votes in turn, those that verify and whose key has not voted are kept.
  pub accept : List Signature → List Signature → List Signature
  accept kept [] = kept
  accept kept (item ∷ items) =
      accept
        (if not (contains (voters kept) item.public_key) && verify_vote p height id item
          then kept ++ item ∷ []
          else kept)
        items

  clear_state-IsCollected : (s : State) → IsCollected (clear_state s)
  clear_state-IsCollected s = record {
    keyed = λ key. unfold lookup in refl;
    single = tt;
    verified = tt;
    about = λ votes e. cc;
  }

  collected-push_vote :
      (s : State) (item : Signature) (marks : Map String Bool)
      → collected (record s {
        votes_key_set = marks;
        pending_votes = some (push_vote s.pending_votes height id item);
      })
        ≡ collected s ++ item ∷ []
  collected-push_vote s item marks =
      elim s.pending_votes
        as (λ v.
          (push_vote v height id item).signatures
          ≡ (elim v [ none ↦ [] | some votes ↦ votes.signatures ]) ++ item ∷ []) [
            | none ↦ refl
            | some votes ↦ refl
          ]

  push_vote_about :
      (item : Signature) (o : Option ManyVotes)
      → ((votes : ManyVotes) → o ≡ some votes → (votes.height ≡ height) × (votes.id ≡ id))
      → ((push_vote o height id item).height ≡ height) × ((push_vote o height id item).id ≡ id)
  push_vote_about item none h = (refl, refl)
  push_vote_about item (some votes) h = h votes refl

  All-snoc :
      {A : Type 0} (Q : A → Type 0) (xs : List A) (a : A) → All Q xs → Q a → All Q (xs ++ a ∷ [])
  All-snoc Q [] a h q = (q, tt)
  All-snoc Q (x ∷ xs) a h q = (h.0, All-snoc Q xs a h.1 q)

  module _ (item : Signature) (s : State) (h : IsCollected s) where
    -- The state after a vote that is taken.
    taken : State
    taken = record s {
      votes_key_set = insert item.public_key true s.votes_key_set;
      pending_votes = some (push_vote s.pending_votes height id item);
    }

    taken-IsCollected :
        marked item.public_key s.votes_key_set ≡ false
        → verify_vote p height id item ≡ true
        → IsCollected taken
    unfolding taken
    taken-IsCollected new good =
        let e = collected-push_vote s item (insert item.public_key true s.votes_key_set) in
        record {
          keyed = λ key.
              rw (e, map-append (λ (i : Signature). i.public_key) (collected s) (item ∷ []))
                (ground (
                  arith,
                  lookup-insert key item.public_key true s.votes_key_set,
                  h.keyed key,
                  contains-append (voters (collected s)) (item.public_key ∷ []) key,
                ));
          single =
              rw (e, map-append (λ (i : Signature). i.public_key) (collected s) (item ∷ []))
                (Distinct-snoc (voters (collected s)) item.public_key h.single
                  (sym (h.keyed item.public_key) ∙ new));
          verified =
              rw e (
                All-snoc (λ i. verify_vote p height id i ≡ true) (collected s) item h.verified
                  good);
          about = λ votes f. ground (arith, push_vote_about item s.pending_votes h.about);
        }

    add_vote-IsCollected :
        IsCollected (add_vote p height id item s)
        × (collected (add_vote p height id item s) ≡ (
            if not (contains (voters (collected s)) item.public_key) && verify_vote p height id item
            then collected s ++ item ∷ []
            else collected s))
    unfolding add_vote taken
    add_vote-IsCollected = ground (
      arith,
      h.keyed item.public_key,
      taken-IsCollected,
      collected-push_vote s item (insert item.public_key true s.votes_key_set),
    )

  add_votes-IsCollected :
      (items : List Signature) (s : State)
      → IsCollected s
      → IsCollected (add_votes p height id items s)
        × (collected (add_votes p height id items s) ≡ accept (collected s) items)
  unfolding add_votes accept
  add_votes-IsCollected [] s h = (h, refl)
  add_votes-IsCollected (item ∷ items) s h =
      let (kept, e) = add_vote-IsCollected item s h in
      let (kept', e') = add_votes-IsCollected items (add_vote p height id item s) kept in
      (kept', e' ∙ ap (λ r. accept r items) e)

-- `addPendingVotes` keeps the votes for the pending block right: each verifies, no key has two, and
-- the key set is that of the votes. Votes of another height or id change nothing; otherwise the
-- collected votes become those of the abstract run, which takes, in turn, each vote that verifies and
-- whose key has not voted.
pub add_pending_votes_refines :
    (p : Platform) (b : Block) (s : State) (votes : ManyVotes)
    → s.pending_block ≡ some b
    → IsCollected p b.height b.id s
    → IsCollected p b.height b.id (add_pending_votes p s votes)
      × (collected (add_pending_votes p s votes) ≡ (
          if b.height == votes.height && b.id == votes.id
          then accept p b.height b.id (collected s) votes.signatures
          else collected s))
unfolding add_pending_votes
add_pending_votes_refines p b s votes pending h =
    ground (arith, eq_iff b.id votes.id, add_votes-IsCollected p b.height b.id votes.signatures s h)
