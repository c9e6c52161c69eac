-- ===== src/Core/BlocksHelper/Checks.antt =====
-- The checks of `BlocksHelper` decide what they are named for.
use gny.Prelude.{
  ℕ, ◌+◌, ◌/◌, ◌≤◌, ◌<◌, String, ◌≡◌, refl, ap, ◌∙◌, ◌↔◌, inl, inr, true, false, ◌&&◌, some, List,
  [], ◌∷◌, map, arith, eq_iff, ltb, ◌==◌, nat_eq, string_eq, option_eq, Bool-cases, length, concat,
  length-append, All, contains, Distinct,
}
use gny.Prelude.Int.{pos, ◌+ℤ◌, ◌≤ℤ◌, int_eq}
use gny.Prelude.{option_beq, option_beq_iff}
use gny.Utils.Constants.{max_payload_length}
use gny.Utils.Slots.{get_slot_number, get_epoch_time}
use gny.Interfaces.{Transaction, Block, ok}
use gny.Base.Platform.{Platform}
use gny.Core.State.{State, LastBlock}
use gny.Core.BlocksHelper.{
  sum_fees, get_fees_of_all, duplicated, are_transactions_duplicated, bytes_of, exceeds,
  are_transactions_exceeding_payload_length, FitInLine, does_the_new_block_fit_in_line,
  verify_block_slot,
}

abbrev pub ids : List Transaction → List String
ids = map (λ t. t.id)

abbrev pub total_fees : List Transaction → ℕ
total_fees [] = 0
total_fees (t ∷ ts) = t.fee + total_fees ts

sum_fees-total_fees : (n : ℕ) (ts : List Transaction) → sum_fees n ts ≡ n + total_fees ts
unfolding sum_fees
sum_fees-total_fees n [] = omega arith
sum_fees-total_fees n (t ∷ ts) = omega (arith, sum_fees-total_fees (n + t.fee) ts)

pub get_fees_of_all-total_fees : (ts : List Transaction) → get_fees_of_all ts ≡ total_fees ts
unfolding get_fees_of_all
get_fees_of_all-total_fees ts = sum_fees-total_fees 0 ts ∙ omega arith

not_contains :
    (a : String) (ts : List Transaction)
    → All (λ t. (t.id == a) ≡ false) ts
    → contains (ids ts) a ≡ false
not_contains a [] h = refl
not_contains a (t ∷ ts) h = ground (arith, not_contains a ts h.1)

contains_not :
    (a : String) (ts : List Transaction)
    → contains (ids ts) a ≡ false
    → All (λ t. (t.id == a) ≡ false) ts
contains_not a [] h = tt
contains_not a (t ∷ ts) h = ground (arith, contains_not a ts)

-- No id of the list is among those seen, and none occurs twice.
abbrev Fresh : List String → List Transaction → Type 0
Fresh applied ts = All (λ t. contains applied t.id ≡ false) ts

Fresh-cons :
    (a : String) (applied : List String) (ts : List Transaction)
    → Fresh (a ∷ applied) ts
    → Fresh applied ts × All (λ t. (t.id == a) ≡ false) ts
Fresh-cons a applied [] h = (tt, tt)
Fresh-cons a applied (t ∷ ts) h =
    ground (arith, Fresh-cons a applied ts h.1, eq_iff a t.id, eq_iff t.id a)

cons_Fresh :
    (a : String) (applied : List String) (ts : List Transaction)
    → Fresh applied ts
    → All (λ t. (t.id == a) ≡ false) ts
    → Fresh (a ∷ applied) ts
cons_Fresh a applied [] h k = tt
cons_Fresh a applied (t ∷ ts) h k =
    ground (arith, cons_Fresh a applied ts h.1 k.1, eq_iff a t.id, eq_iff t.id a)

duplicated_sound :
    (applied : List String) (ts : List Transaction)
    → duplicated applied ts ≡ false
    → Fresh applied ts × Distinct (ids ts)
unfolding duplicated
duplicated_sound applied [] h = (tt, tt)
duplicated_sound applied (t ∷ ts) h = elim (Bool-cases (contains applied t.id)) [
  | inl old ↦ ground arith
  | inr new ↦
      let (fresh, distinct) = duplicated_sound (t.id ∷ applied) ts (ground arith) in
      let (fresh', apart) = Fresh-cons t.id applied ts fresh in
      ((new, fresh'), (not_contains t.id ts apart, distinct))
]

duplicated_complete :
    (applied : List String) (ts : List Transaction)
    → Fresh applied ts
    → Distinct (ids ts)
    → duplicated applied ts ≡ false
unfolding duplicated
duplicated_complete applied [] f d = refl
duplicated_complete applied (t ∷ ts) f d = ground (
  arith,
  duplicated_complete (t.id ∷ applied) ts
      (cons_Fresh t.id applied ts f.1 (contains_not t.id ts d.0)) d.1,
)

nothing_applied : (ts : List Transaction) → Fresh [] ts
nothing_applied [] = tt
nothing_applied (t ∷ ts) = (refl, nothing_applied ts)

-- `AreTransactionsDuplicated` answers false exactly if the ids of the transactions are distinct.
pub are_transactions_duplicated_iff :
    (ts : List Transaction) → (are_transactions_duplicated ts ≡ false) ↔ Distinct (ids ts)
unfolding are_transactions_duplicated
are_transactions_duplicated_iff ts =
    (λ h. (duplicated_sound [] ts h).1, duplicated_complete [] ts (nothing_applied ts))

module _ (p : Platform) where
  exceeds-ltb :
      (n : ℕ) (ts : List Transaction)
      → n ≤ max_payload_length
      → exceeds p n ts ≡ ltb max_payload_length (n + length (concat (map (bytes_of p) ts)))
  unfolding exceeds
  exceeds-ltb n [] h = ground arith
  exceeds-ltb n (t ∷ ts) h = ground (
    arith,
    exceeds-ltb (n + length (bytes_of p t)) ts,
    length-append (bytes_of p t) (concat (map (bytes_of p) ts)),
  )

  -- `areTransactionsExceedingPayloadLength` answers true exactly if the bytes of all transactions, one
  -- behind the other, as they are hashed for the block, are more than the maximum of 8 MiB.
  pub are_transactions_exceeding_payload_length_lem :
      (ts : List Transaction)
      → are_transactions_exceeding_payload_length p ts
        ≡ ltb max_payload_length (length (concat (map (bytes_of p) ts)))
  unfolding are_transactions_exceeding_payload_length
  are_transactions_exceeding_payload_length_lem ts =
      exceeds-ltb 0 ts (omega arith) ∙ ap (ltb max_payload_length) (omega arith)

-- The new block has the next height and names the last block as its previous one.
abbrev pub Follows : Block → Block → Type 0
Follows b last = (b.height ≡ last.height + 1) × (b.prev_block_id ≡ some last.id)

module _ (s : State) (last b : Block) (e : s.last_block ≡ LastBlock.known last) where
  fits_success : Follows b last → does_the_new_block_fit_in_line s b ≡ ok FitInLine.success
  unfolding does_the_new_block_fit_in_line ◌+ℤ◌
  fits_success f = ground (arith, option_beq_iff b.prev_block_id (some last.id))

  success_fits : does_the_new_block_fit_in_line s b ≡ ok FitInLine.success → Follows b last
  unfolding does_the_new_block_fit_in_line ◌+ℤ◌
  success_fits f = ground (arith, option_beq_iff b.prev_block_id (some last.id))

  long_fork_iff :
      (does_the_new_block_fit_in_line s b ≡ ok FitInLine.long_fork) ↔ (last.height + 5 < b.height)
  unfolding does_the_new_block_fit_in_line ◌+ℤ◌
  long_fork_iff = (λ f. ground arith, λ f. ground arith)

  sync_blocks_iff :
      (does_the_new_block_fit_in_line s b ≡ ok FitInLine.sync_blocks)
      ↔ ((b.height ≤ last.height + 5) × ¬ Follows b last)
  unfolding does_the_new_block_fit_in_line ◌+ℤ◌
  sync_blocks_iff = (
    λ f. (ground arith, λ g. cc (fits_success g, f)),
    λ f.
        elim (Bool-cases
          (b.height == last.height + 1 && option_beq b.prev_block_id (some last.id))) [
            | inl both ↦ absurd (
                f.1
                  (ground arith, (option_beq_iff b.prev_block_id (some last.id)).0 (ground arith)))
            | inr other ↦ ground arith
          ],
  )

-- Against a last block, a new block fits in line exactly if it names that block as its previous one and
-- has the next height. It is a long fork exactly if it is more than five heights ahead, and calls for a
-- sync in the remaining cases.
pub does_the_new_block_fit_in_line_iff :
    (s : State) (last b : Block)
    → s.last_block ≡ LastBlock.known last
    → ((does_the_new_block_fit_in_line s b ≡ ok FitInLine.success) ↔ Follows b last)
      × ((does_the_new_block_fit_in_line s b ≡ ok FitInLine.long_fork)
          ↔ (last.height + 5 < b.height))
      × ((does_the_new_block_fit_in_line s b ≡ ok FitInLine.sync_blocks)
          ↔ ((b.height ≤ last.height + 5) × ¬ Follows b last))
does_the_new_block_fit_in_line_iff s last b e = (
  (success_fits s last b e, fits_success s last b e),
  long_fork_iff s last b e,
  sync_blocks_iff s last b e,
)

-- A block passes the slot check exactly if its slot is after that of the last block, and at most one
-- after that of the clock.
pub verify_block_slot_iff :
    (s : State) (last b : Block) (now : ℕ)
    → s.last_block ≡ LastBlock.known last
    → (verify_block_slot s now b ≡ ok true) ↔ (
        (last.timestamp / 10 < b.timestamp / 10)
        × (pos (b.timestamp / 10) ≤ℤ get_slot_number (get_epoch_time now) +ℤ pos 1))
unfolding verify_block_slot
verify_block_slot_iff s last b now e = (λ h. ground arith, λ h. ground arith)
