-- ===== src/Core/Votes/Stale.antt =====
-- Votes that are left from an earlier pending block.
use gny.Prelude.{
  ℕ, String, ◌≡◌, refl, sym, inl, inr, Option, none, some, List, [], ◌∷◌, ◌++◌, nat_eq, string_eq,
  option_eq, Bool-cases,
}
use gny.Prelude.Int.{int_eq}
use mathlib.Core.List.{append_assoc, append-nil}
use gny.Interfaces.{Block, ManyVotes, Signature}
use gny.Base.Platform.{Platform}
use gny.Base.Consensus.{verify_vote}
use gny.Core.State.{State, marked}
use gny.Core.Votes.{push_vote, add_vote, add_votes, concerns, add_pending_votes, set_pending_block}

-- The pending votes are `old` with more signatures behind, still under the height and id of `old`.
abbrev pub Extends : ManyVotes → Option ManyVotes → Type 0
Extends old none = ⊥
Extends old (some votes) =
    (votes.height ≡ old.height)
    × (votes.id ≡ old.id)
    × ((rest : List Signature) × (votes.signatures ≡ old.signatures ++ rest))

module _ (p : Platform) (old : ManyVotes) where
  Extends-push_vote :
      (o : Option ManyVotes) (height : ℕ) (id : String) (item : Signature)
      → Extends old o
      → Extends old (some (push_vote o height id item))
  Extends-push_vote none height id item h = absurd h
  Extends-push_vote (some votes) height id item (eh, ei, (rest, e)) =
      (eh, ei, (rest ++ item ∷ [], rw e (append_assoc old.signatures rest (item ∷ []))))

  Extends-add_vote :
      (height : ℕ) (id : String) (item : Signature) (s : State)
      → Extends old s.pending_votes
      → Extends old (add_vote p height id item s).pending_votes
  unfolding add_vote
  Extends-add_vote height id item s h = elim (Bool-cases (marked item.public_key s.votes_key_set)) [
    | inl known ↦ rw known h
    | inr new ↦ rw new (elim (Bool-cases (verify_vote p height id item)) [
      | inl good ↦ rw good (Extends-push_vote s.pending_votes height id item h)
      | inr bad ↦ rw bad h
    ])
  ]

  Extends-add_votes :
      (height : ℕ) (id : String) (items : List Signature) (s : State)
      → Extends old s.pending_votes
      → Extends old (add_votes p height id items s).pending_votes
  unfolding add_votes
  Extends-add_votes height id [] s h = h
  Extends-add_votes height id (item ∷ items) s h =
      Extends-add_votes height id items (add_vote p height id item s)
        (Extends-add_vote height id item s h)

  -- `setPendingBlock` does not clear the votes of an earlier pending block. Whatever block becomes
  -- pending and whatever votes then come in, the pending votes are those for the earlier block, under
  -- its height and id, with the new ones behind, so that the earlier ones count for the new block.
  pub set_pending_block_keeps_votes :
      (s : State) (b : Block) (votes : ManyVotes)
      → s.pending_votes ≡ some old
      → Extends old (add_pending_votes p (set_pending_block s b) votes).pending_votes
  unfolding add_pending_votes
  set_pending_block_keeps_votes s b votes e =
      let start : Extends old s.pending_votes =
        rw e (refl, refl, ([], sym (append-nil old.signatures))) in
      elim (Bool-cases (concerns (some b) votes)) [
        | inl yes_it ↦
            rw (yes_it, add_pending_votes)
              (Extends-add_votes votes.height votes.id votes.signatures (set_pending_block s b)
                start)
        | inr no_it ↦ rw (no_it, add_pending_votes) start
      ]
