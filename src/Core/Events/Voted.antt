-- ===== src/Core/Events/Voted.antt =====
-- For which proposes a node votes, in terms of the propose and the node's state.
use gny.Prelude.{nat_beq_iff}
use gny.Prelude.Int.{+ℤ_parts}
use gny.Prelude.{
  ℕ, zero, suc, ◌+◌, ◌/◌, ◌%◌, ◌≤◌, String, ◌≡◌, refl, sym, ap, ◌∙◌, ◌≢◌, ◌⊎◌, inl, inr, Bool, true,
  false, not, ◌&&◌, ◌||◌, Option, none, some, List, [], arith, eq_iff, if◌then◌else◌, ◌==◌, nat_eq,
  string_eq, option_eq, Bool-cases, option_beq, option_beq_iff, get_elem?,
}
use gny.Prelude.Int.{pos, negsuc, int_eq}
use gny.Prelude.Map.{Map, lookup, insert}
use gny.Interfaces.{ok_inj, Block, BlockPropose, ManyVotes, ok, Result-cases}
use gny.Base.Platform.{Platform}
use gny.Base.Consensus.{create_votes, accept_propose, calculate_propose_hash}
use gny.Core.State.{State, LastBlock, marked}
use gny.Core.BlocksHelper.{does_new_block_propose_match_old_one}
use gny.Core.Delegates.{get_active_delegate_keypairs, validate_propose_slot}
use gny.Core.Processing.{Chain, Node}
use gny.Core.Events.{
  Settings, Message, delegate_list, fits_height, voted_lately, on_receive_propose,
}
use gny.Core.Events.Propose.{first_votes, on_receive_propose-Guarded}

awake_flags :
    (syncing loaded : Bool) → (syncing || not loaded) ≡ false → (syncing ≡ false) × (loaded ≡ true)
awake_flags syncing loaded h = (ground arith, ground arith)

not_marked :
    (key : String) (cache : Map String Bool)
    → marked key cache ≡ false
    → lookup key cache ≢ some true
not_marked key cache h found =
    cc (h, ap (λ o. elim o as (λ _. Bool) [ none ↦ false | some value ↦ value ]) found)

agrees_with :
    (propose last : BlockPropose) (s : State)
    → does_new_block_propose_match_old_one s propose ≡ false
    → s.last_propose ≡ some last
    → last.height ≡ propose.height
    → last.generator_public_key ≡ propose.generator_public_key
    → last.id ≡ propose.id
unfolding does_new_block_propose_match_old_one
agrees_with propose last s h here height key =
    let h' =
      sym (
        ap
          (λ o. elim o as (λ _. Bool) [
            | none ↦ false
            | some old ↦
                old.height == propose.height
                && old.generator_public_key == propose.generator_public_key
                && not (old.id == propose.id)
          ])
          here)
      ∙ h in
    ground (
      arith,
      h',
      nat_beq_iff last.height propose.height,
      eq_iff last.generator_public_key propose.generator_public_key,
      eq_iff last.id propose.id,
    )

-- The height behind that of the last block, which before the genesis block is -1.
abbrev pub IsNext : ℕ → LastBlock → Type 0
IsNext height last =
    ((b : Block) × (last ≡ LastBlock.known b) × (height ≡ b.height + 1))
    ⊎ ((last ≡ LastBlock.pre_genesis) × (height ≡ 0))

passed :
    (fits : Bool) (far messages : List Message)
    → ◌≡◌ {A = Bool × List Message} (if fits then (true, []) else (false, far)) (true, messages)
    → fits ≡ true
passed true far messages h = refl
passed false far messages h = cc (ap (λ (r : Bool × List Message). r.0) h)

fits_height-IsNext :
    (propose : BlockPropose) (last : LastBlock) (messages : List Message)
    → fits_height propose last ≡ ok (true, messages)
    → IsNext propose.height last
fits_height-IsNext propose LastBlock.missing messages h = cc
fits_height-IsNext propose LastBlock.pre_genesis messages h =
    inr (refl, ground (arith, passed _ _ messages (ok_inj h), +ℤ_parts (negsuc 0) (pos 1)))
fits_height-IsNext propose (LastBlock.known b) messages h =
    inl (b, refl, ground (arith, passed _ _ messages (ok_inj h), +ℤ_parts (pos b.height) (pos 1)))

waited :
    (now t : ℕ) (o : Option ℕ)
    → voted_lately now o ≡ false
    → o ≡ some t
    → (t ≡ 0) ⊎ (t + 5000 ≤ now)
waited now zero o h e = inl refl
waited now (suc t) o h e = inr (let h' = sym (ap (voted_lately now) e) ∙ h in ground (arith, h'))

slot_of :
    (propose : BlockPropose) (active : List String)
    → validate_propose_slot propose active ≡ ok tt
    → get_elem? active (propose.timestamp / 10 % 101) ≡ some propose.generator_public_key
unfolding validate_propose_slot
slot_of propose active h =
    let at = get_elem? active (propose.timestamp / 10 % 101) in
    elim (Bool-cases (option_beq at (some propose.generator_public_key))) [
      | inl same ↦ (option_beq_iff at (some propose.generator_public_key)).0 same
      | inr other ↦ ground (arith, other, h)
    ]

module _ (n : Node) (c : Settings) (now : ℕ) (chain : Chain) (propose : BlockPropose)
    (s : State) where
  abbrev p : Platform
  p = n.runtime.platform

  -- The hash of the propose is the one of its data, and the signature by the delegate's key is one of this hash.
  abbrev pub IsSigned : Type 0
  IsSigned =
      (hash : List ℕ) × (calculate_propose_hash p propose.height propose.id propose.timestamp
          propose.generator_public_key propose.address
        ≡ ok hash)
      × (propose.hash ≡ p.to_hex hash)
      × (p.verify hash (p.from_hex propose.signature) (p.from_hex propose.generator_public_key)
          ≡ ok true)

  accept_propose-IsSigned : accept_propose p propose ≡ true → IsSigned
  unfolding accept_propose
  accept_propose-IsSigned h =
      let made =
        calculate_propose_hash p propose.height propose.id propose.timestamp
          propose.generator_public_key propose.address in
      elim (Result-cases made) [
        | inr (message, failed) ↦ ground (arith, failed, h)
        | inl (hash, e) ↦
            elim (Result-cases (
              p.verify hash (p.from_hex propose.signature)
                (p.from_hex propose.generator_public_key))) [
                  | inr (message, failed) ↦ ground (arith, e, failed, h)
                  | inl (true, verified) ↦
                      (hash, e, ground (arith, e, h, eq_iff propose.hash (p.to_hex hash)), verified)
                  | inl (false, verified) ↦ ground (arith, e, verified, h)
                ]
      ]

  -- What holds when a node votes, and what its votes and its state are.
  pub record IsVoted (votes : ManyVotes) (s' : State) : Type 0 where
    pub awake : c.is_syncing ≡ false
    pub loaded : n.modules_are_loaded ≡ true
    pub fresh : lookup propose.hash s.propose_cache ≢ some true
    pub agrees :
        (last : BlockPropose)
        → s.last_propose ≡ some last
        → last.height ≡ propose.height
        → last.generator_public_key ≡ propose.generator_public_key
        → last.id ≡ propose.id
    pub next : IsNext propose.height s.last_block
    pub patient : (t : ℕ) → s.last_vote_time ≡ some t → (t ≡ 0) ⊎ (t + 5000 ≤ now)
    pub in_slot :
        get_elem? (delegate_list n propose.height chain) (propose.timestamp / 10 % 101)
        ≡ some propose.generator_public_key
    pub signed : IsSigned
    pub made :
        votes
        ≡ create_votes p
            (get_active_delegate_keypairs (delegate_list n propose.height chain) c.key_pairs)
            propose.height
            propose.id
    pub saved : s' ≡ record s {
      propose_cache = insert propose.hash true s.propose_cache;
      last_vote_time = some now;
      last_propose = some propose;
    }

  -- A node votes for a propose only if it is neither syncing nor loading, has not marked the propose's hash as
  -- received, the last propose that it voted for is not of the same delegate and height with another id, the
  -- height is the one behind the last block's (0 before the genesis block), its last votes are five seconds old
  -- or more (unless their time was 0), the delegate has the slot of the propose's timestamp, 10 seconds for each
  -- of 101, the hash is the one of the propose's data, and the delegate's signature of it verifies. Its votes
  -- are then those of all its key pairs that are active, for the height and the id of the propose, and the
  -- state only marks the propose as received and as the last one voted for, with the time.
  pub on_receive_propose-IsVoted :
      (votes : ManyVotes)
      → first_votes (on_receive_propose n c now chain propose s).0 ≡ some votes
      → IsVoted votes (on_receive_propose n c now chain propose s).1
  on_receive_propose-IsVoted votes h =
      let g = on_receive_propose-Guarded n c now chain propose s votes h in
      let (awake, loaded) = awake_flags c.is_syncing n.modules_are_loaded g.awake in
      record {
        awake = awake;
        loaded = loaded;
        fresh = not_marked propose.hash s.propose_cache g.fresh;
        agrees = λ last here height key. agrees_with propose last s g.agrees here height key;
        next = fits_height-IsNext propose s.last_block g.next.0 g.next.1;
        patient = λ t e. waited now t s.last_vote_time g.patient e;
        in_slot = slot_of propose (delegate_list n propose.height chain) g.in_slot;
        signed = accept_propose-IsSigned g.accepted;
        made = g.made;
        saved = g.saved;
      }
