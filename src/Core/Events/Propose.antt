-- ===== src/Core/Events/Propose.antt =====
-- packages/main/src/core/blocks.ts, `onReceivePropose`: for which proposes a node votes, and how often.
use gny.Prelude.{
  ℕ, zero, suc, ◌+◌, ◌<◌, String, ◌≡◌, refl, sym, ap, ◌∙◌, ◌≢◌, inl, inr, Bool, true, false, ◌||◌,
  Option, none, some, List, [], ◌∷◌, arith, eq_iff, if◌then◌else◌, ◌==◌, nat_eq, nat_beq_iff,
  string_eq, option_eq, Bool-cases, Option-cases, length,
}
use gny.Prelude.Int.{pos, negsuc, ◌+ℤ◌, ltb_ℤ, eqb_ℤ, int_eq}
use gny.Prelude.Map.{Map, lookup, insert, lookup-insert}
use gny.Interfaces.{BlockPropose, ManyVotes, Result, ok, err, Result-cases}
use gny.Base.Consensus.{create_votes, accept_propose}
use gny.Core.State.{State, LastBlock, marked}
use gny.Core.BlocksHelper.{
  does_new_block_propose_match_old_one, already_received_propose, mark_propose_as_received,
  set_last_propose,
}
use gny.Core.Delegates.{get_active_delegate_keypairs, validate_propose_slot}
use gny.Core.Processing.{Chain, Node}
use gny.Core.Events.{
  Settings, Message, votes_sent, propose_sent, sync_started, delegate_list, fits_height,
  voted_lately, is_busy, answered, consider, checked, on_receive_propose,
}

-- The votes among messages, the first ones.
abbrev pub first_votes : List Message → Option ManyVotes
first_votes [] = none
first_votes (votes_sent votes address ∷ messages) = some votes
first_votes (propose_sent propose ∷ messages) = first_votes messages
first_votes (sync_started ∷ messages) = first_votes messages

some_votes : {u v : ManyVotes} → some u ≡ some v → v ≡ u
some_votes h = cc

abbrev messages_of : Result (Bool × List Message) → List Message
messages_of (ok (fits, messages)) = messages
messages_of (err message) = []

quiet :
    (b c : Bool)
    → first_votes
        (messages_of (ok (if b then (true, []) else (false, if c then sync_started ∷ [] else []))))
      ≡ none
quiet true c = refl
quiet false true = refl
quiet false false = refl

no_votes_of_height :
    (propose : BlockPropose) (last : LastBlock)
    → first_votes (messages_of (fits_height propose last)) ≡ none
no_votes_of_height propose LastBlock.missing = refl
no_votes_of_height propose LastBlock.pre_genesis =
    quiet (eqb_ℤ (pos propose.height) (negsuc 0 +ℤ pos 1))
      (ltb_ℤ (negsuc 0 +ℤ pos 1) (pos propose.height))
no_votes_of_height propose (LastBlock.known b) =
    quiet (eqb_ℤ (pos propose.height) (pos b.height +ℤ pos 1))
      (ltb_ℤ (pos b.height +ℤ pos 1) (pos propose.height))

neither : (a b : Bool) → (a || b) ≡ false → (a ≡ false) × (b ≡ false)
neither false b h = (refl, h)
neither true b h = cc

module _ (n : Node) (c : Settings) (now : ℕ) (chain : Chain) (propose : BlockPropose)
    (s : State) where
  -- The guards that a propose has passed when a node votes, and what its votes are.
  pub record Guarded (votes : ManyVotes) (s' : State) : Type 0 where
    pub awake : is_busy n c ≡ false
    pub fresh : already_received_propose s propose ≡ false
    pub agrees : does_new_block_propose_match_old_one s propose ≡ false
    pub next : (messages : List Message) × (fits_height propose s.last_block ≡ ok (true, messages))
    pub patient : voted_lately now s.last_vote_time ≡ false
    pub in_slot : validate_propose_slot propose (delegate_list n propose.height chain) ≡ ok tt
    pub accepted : accept_propose n.runtime.platform propose ≡ true
    pub made :
        votes
        ≡ create_votes n.runtime.platform
            (get_active_delegate_keypairs (delegate_list n propose.height chain) c.key_pairs)
            propose.height
            propose.id
    pub saved : s' ≡ set_last_propose (mark_propose_as_received s propose) now propose

  abbrev s1 : State
  s1 = mark_propose_as_received s propose

  abbrev VotesOnlyIf : Type 0 → List Message × State → Type 0
  VotesOnlyIf Checked r =
      (votes : ManyVotes)
      → first_votes r.0 ≡ some votes
      → Checked
        × (votes
            ≡ create_votes n.runtime.platform
                (get_active_delegate_keypairs (delegate_list n propose.height chain) c.key_pairs)
                propose.height propose.id)
        × (r.1 ≡ set_last_propose s1 now propose)

  answered_lem :
      (votes : ManyVotes)
      → votes
        ≡ create_votes n.runtime.platform
            (get_active_delegate_keypairs (delegate_list n propose.height chain) c.key_pairs)
            propose.height
            propose.id
      → VotesOnlyIf (Unit {0}) (answered c now propose s1 s votes)
  answered_lem votes e = elim (Result-cases (c.send votes propose.address)) [
    | inl (done, sent) ↦ rw (sent, answered) (λ v h. (tt, some_votes h ∙ e, refl))
    | inr (message, failed) ↦ rw (failed, answered) (λ v h. cc)
  ]

  consider_lem :
      VotesOnlyIf
        ((validate_propose_slot propose (delegate_list n propose.height chain) ≡ ok tt)
          × (accept_propose n.runtime.platform propose ≡ true))
        (consider n c now chain propose s1 s)
  consider_lem =
      elim (Result-cases (validate_propose_slot propose (delegate_list n propose.height chain))) [
        | inr (message, wrong) ↦ rw (wrong, consider) (λ v h. cc)
        | inl (done, slot) ↦
            rw (slot, consider)
              (elim (Bool-cases (accept_propose n.runtime.platform propose)) [
                | inr refused ↦ rw (refused, consider) (λ v h. cc)
                | inl accepted ↦
                    rw (accepted, consider)
                      (elim (Bool-cases (
                        length (
                          get_active_delegate_keypairs (delegate_list n propose.height chain)
                            c.key_pairs)
                        == 0)) [
                          | inl nobody ↦ rw (nobody, consider) (λ v h. cc)
                          | inr somebody ↦
                              rw (somebody, consider)
                                (λ v h.
                                  let (_, made, saved) =
                                    answered_lem
                                      (create_votes n.runtime.platform
                                        (get_active_delegate_keypairs
                                          (delegate_list n propose.height chain) c.key_pairs)
                                        propose.height propose.id)
                                      refl v h in
                                  ((refl, refl), made, saved))
                        ])
              ])
      ]

  checked_lem :
      VotesOnlyIf
        ((does_new_block_propose_match_old_one s1 propose ≡ false)
          × ((messages : List Message) × (fits_height propose s.last_block ≡ ok (true, messages)))
          × (voted_lately now s.last_vote_time ≡ false)
          × (validate_propose_slot propose (delegate_list n propose.height chain) ≡ ok tt)
          × (accept_propose n.runtime.platform propose ≡ true))
        (checked n c now chain propose s1 s)
  checked_lem = elim (Bool-cases (does_new_block_propose_match_old_one s1 propose)) [
    | inl differs ↦ rw (differs, checked) (λ v h. cc)
    | inr agrees ↦
        rw (agrees, checked)
          (elim (Result-cases (fits_height propose s.last_block)) [
            | inr (message, failed) ↦ rw (failed, checked) (λ v h. cc)
            | inl ((false, messages), far) ↦
                rw (far, checked)
                  (λ v h. cc (
                    ap (λ r. first_votes (messages_of r)) far,
                    no_votes_of_height propose s.last_block,
                  ))
            | inl ((true, messages), next) ↦
                rw (next, checked)
                  (elim (Bool-cases (voted_lately now s.last_vote_time)) [
                    | inl lately ↦ rw (lately, checked) (λ v h. cc)
                    | inr patient ↦
                        rw (patient, checked)
                          (λ v h.
                            let ((slot, accepted), made, saved) = consider_lem v h in
                            ((refl, (messages, refl), refl, slot, accepted), made, saved))
                  ])
          ])
  ]

  pub on_receive_propose-Guarded :
      (votes : ManyVotes)
      → first_votes (on_receive_propose n c now chain propose s).0 ≡ some votes
      → Guarded votes (on_receive_propose n c now chain propose s).1
  unfolding on_receive_propose does_new_block_propose_match_old_one
  on_receive_propose-Guarded votes =
      elim (Bool-cases (is_busy n c || already_received_propose s propose)) [
        | inl stop ↦ rw (stop, on_receive_propose) (λ h. cc)
        | inr go ↦
            let (awake, fresh) = neither (is_busy n c) (already_received_propose s propose) go in
            rw (go, on_receive_propose)
              (λ h.
                let ((agrees, next, patient, slot, accepted), made, saved) = checked_lem votes h in
                record {
                  awake = awake;
                  fresh = fresh;
                  agrees = agrees;
                  next = next;
                  patient = patient;
                  in_slot = slot;
                  accepted = accepted;
                  made = made;
                  saved = saved;
                })
      ]

-- A second propose that a node that has voted leaves alone.
pub data IsBarred (now : ℕ) (propose : BlockPropose) (later : ℕ) (second : BlockPropose)
    : Type 0 where
  same_hash : second.hash ≡ propose.hash → IsBarred now propose later second
  other_block :
      propose.height ≡ second.height
      → propose.generator_public_key ≡ second.generator_public_key
      → propose.id ≢ second.id
      → IsBarred now propose later second
  too_soon : later < now + 5000 → IsBarred now propose later second

received_before :
    (propose second : BlockPropose) (cache : Map String Bool)
    → second.hash ≡ propose.hash
    → marked second.hash (insert propose.hash true cache) ≡ true
received_before propose second cache same =
    ap (λ o. elim o as (λ _. Bool) [ none ↦ false | some value ↦ value ])
      (lookup-insert second.hash propose.hash true cache
        ∙ ap (λ b. if b then some true else lookup second.hash cache)
            ((eq_iff propose.hash second.hash).1 (sym same)))

contradicts :
    (propose second : BlockPropose) (s : State)
    → s.last_propose ≡ some propose
    → propose.height ≡ second.height
    → propose.generator_public_key ≡ second.generator_public_key
    → propose.id ≢ second.id
    → does_new_block_propose_match_old_one s second ≡ true
unfolding does_new_block_propose_match_old_one
contradicts propose second s last height key other = rw last (
    ground (
      arith,
      nat_beq_iff propose.height second.height,
      eq_iff propose.generator_public_key second.generator_public_key,
      eq_iff propose.id second.id,
    ))

lately :
    (now later : ℕ) (o : Option ℕ)
    → o ≡ some now
    → 0 < now
    → later < now + 5000
    → voted_lately later o ≡ true
lately zero later o e started soon = ground arith
lately (suc t) later o e started soon = rw e (ground arith)

-- After its votes for a propose a node is silent. If the clock was not 0 when it voted, then, whatever the database
-- has become, it does not vote for a second propose that has the same hash, or that is from the same delegate
-- for the same height and another block, or that comes less than five seconds later.
pub on_receive_propose_votes_once :
    (n : Node) (c : Settings) (now : ℕ) (chain : Chain) (propose : BlockPropose) (s : State)
    (votes : ManyVotes)
    → 0 < now
    → first_votes (on_receive_propose n c now chain propose s).0 ≡ some votes
    → (later : ℕ) (after : Chain) (second : BlockPropose) → IsBarred now propose later second
    → first_votes
        (on_receive_propose n c later after second (on_receive_propose n c now chain propose s).1).0
      ≡ none
on_receive_propose_votes_once n c now chain propose s votes started h later after second barred =
    let u = (on_receive_propose n c now chain propose s).1 in
    let first = on_receive_propose-Guarded n c now chain propose s votes h in
    elim (Option-cases (first_votes (on_receive_propose n c later after second u).0)) [
      | inl silent ↦ silent
      | inr (v, voted) ↦
          let again = on_receive_propose-Guarded n c later after second u v voted in
          elim barred [
            | same_hash same ↦ cc (
              again.fresh,
              ap (λ (x : State). marked second.hash x.propose_cache) first.saved,
              received_before propose second s.propose_cache same,
            )
            | other_block height key other ↦ cc (
              again.agrees,
              contradicts propose second u (ap (λ (x : State). x.last_propose) first.saved) height
                  key other,
            )
            | too_soon soon ↦ cc (
              again.patient,
              lately now later u.last_vote_time (ap (λ (x : State). x.last_vote_time) first.saved)
                  started soon,
            )
          ]
    ]
