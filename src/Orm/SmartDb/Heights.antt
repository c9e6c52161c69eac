-- ===== src/Orm/SmartDb/Heights.antt =====
-- packages/database-postgres/src/smartDB.ts, `rollbackBlock`: which blocks its loop deletes.
use gny.Prelude.{
  ℕ, zero, suc, String, ◌≡◌, refl, ap, ◌∙◌, ◌⊎◌, inl, inr, true, false, ◌&&◌, Option, none, List,
  [], ◌∷◌, arith, if◌then◌else◌, ◌==◌, nat_eq, nat_beq_iff, string_eq, option_eq, Bool-cases,
}
use gny.Prelude.Int.{
  ℤ, pos, pos_part, neg_part, ◌+ℤ◌, ◌-ℤ◌, ltb_ℤ, leb_ℤ, int_laws, int_eq, eqb_ℤ_iff, -ℤ_parts,
  +ℤ_parts, eq_of_parts,
}
use gny.Prelude.Map.{Map, lookup, lookup-erase}
use gny.Interfaces.{Block}
use gny.Orm.Schema.{ModelSchema}
use gny.Orm.UniquedCache.{Lru}
use gny.Orm.BlockCache.{evit_until}
use gny.Orm.SmartDb.{
  SmartDb, decimal, comes_after, without_height, block_at, delete_last_block, delete_above,
}

comes_after_self : (a : List ℕ) → comes_after a a ≡ false
comes_after_self [] = refl
comes_after_self (x ∷ a) = ground (arith, nat_beq_iff x x, comes_after_self a)

pub block_at-without_height :
    (j h : ℤ) (bs : List Block)
    → block_at j (without_height h bs) ≡ (if h == j then none else block_at j bs)
block_at-without_height j h [] = ground arith
block_at-without_height j h (b ∷ bs) = ground (
  arith,
  eqb_ℤ_iff (pos b.height) h,
  eqb_ℤ_iff (pos b.height) j,
  eqb_ℤ_iff h j,
  block_at-without_height j h bs,
)

below_or_last : (v last : ℤ) → leb_ℤ v last ≡ true → (v ≡ last) ⊎ (leb_ℤ v (last -ℤ pos 1) ≡ true)
below_or_last v last h = ground (arith, -ℤ_parts last (pos 1), eq_of_parts v last)

below_more : (r last : ℤ) → leb_ℤ r (last -ℤ pos 1) ≡ true → leb_ℤ r last ≡ true
below_more r last h = ground (arith, -ℤ_parts last (pos 1))

step_back :
    (last target : ℤ) (n : ℕ) → last ≡ target +ℤ pos (suc n) → last -ℤ pos 1 ≡ target +ℤ pos n
step_back last target n h = omega (int_laws, ap pos_part h, ap neg_part h)

no_step : (last target : ℤ) → last ≡ target +ℤ pos 0 → last ≡ target
no_step last target h = omega (int_laws, ap pos_part h, ap neg_part h)

above_by : (last target : ℤ) (n : ℕ) → last ≡ target +ℤ pos n → leb_ℤ target last ≡ true
above_by last target n h = ground (arith, +ℤ_parts target (pos n))

nothing_gone :
    {A : Type 0} (last h : ℤ) (x : Option A)
    → x ≡ (if ltb_ℤ last h && leb_ℤ h last then none else x)
nothing_gone last h x = ground arith

one_gone_more :
    {A : Type 0} (r last h : ℤ) (x y z : Option A)
    → leb_ℤ r (last -ℤ pos 1) ≡ true
    → x ≡ (if ltb_ℤ r h && leb_ℤ h (last -ℤ pos 1) then none else y)
    → y ≡ (if last == h then none else z)
    → x ≡ (if ltb_ℤ r h && leb_ℤ h last then none else z)
one_gone_more r last h x y z le e d = ground (arith, -ℤ_parts last (pos 1), eqb_ℤ_iff last h)

module _ (l : Lru) (schemas : Map String ModelSchema) where
  -- What is deleted, from the last block down to where the loop stops.
  pub record IsDeleted (target : ℤ) (d r : SmartDb l schemas) : Type 0 where
    pub stopped : comes_after (decimal r.last_block_height) (decimal target) ≡ false
    pub passed :
        (v : ℤ)
        → ltb_ℤ r.last_block_height v ≡ true
        → leb_ℤ v d.last_block_height ≡ true
        → comes_after (decimal v) (decimal target) ≡ true
    pub not_below : leb_ℤ target r.last_block_height ≡ true
    pub not_above : leb_ℤ r.last_block_height d.last_block_height ≡ true
    pub blocks :
        (h : ℤ)
        → block_at h r.blocks ≡ (
            if ltb_ℤ r.last_block_height h && leb_ℤ h d.last_block_height
            then none
            else block_at h d.blocks)
    pub histories :
        (h : ℤ)
        → lookup h r.histories ≡ (
            if ltb_ℤ r.last_block_height h && leb_ℤ h d.last_block_height
            then none
            else lookup h d.histories)
    pub session : r.session ≡ d.session

  abbrev one_less : SmartDb l schemas → SmartDb l schemas
  one_less d =
      let d' = delete_last_block l schemas d.last_block_height d in
      record d' { cached_blocks = evit_until d'.last_block_height d'.cached_blocks }

  stays-IsDeleted :
      (target : ℤ) (d : SmartDb l schemas)
      → comes_after (decimal d.last_block_height) (decimal target) ≡ false
      → leb_ℤ target d.last_block_height ≡ true
      → IsDeleted target d d
  stays-IsDeleted target d stop above = record {
    stopped = stop;
    passed = λ v h h'. ground arith;
    not_below = above;
    not_above = ground arith;
    blocks = λ h. nothing_gone d.last_block_height h (block_at h d.blocks);
    histories = λ h. nothing_gone d.last_block_height h (lookup h d.histories);
    session = refl;
  }

  next-IsDeleted :
      (target : ℤ) (d r : SmartDb l schemas)
      → comes_after (decimal d.last_block_height) (decimal target) ≡ true
      → IsDeleted target (one_less d) r
      → IsDeleted target d r
  next-IsDeleted target d r more i = record {
    stopped = i.stopped;
    passed = λ v h h'. elim (below_or_last v d.last_block_height h') [
      | inl last ↦ ap (λ x. comes_after (decimal x) (decimal target)) last ∙ more
      | inr below ↦ i.passed v h below
    ];
    not_below = i.not_below;
    not_above = below_more r.last_block_height d.last_block_height i.not_above;
    blocks = λ h.
        one_gone_more r.last_block_height d.last_block_height h (block_at h r.blocks)
          (block_at h (one_less d).blocks) (block_at h d.blocks) i.not_above (i.blocks h)
          (block_at-without_height h d.last_block_height d.blocks);
    histories = λ h.
        one_gone_more r.last_block_height d.last_block_height h (lookup h r.histories)
          (lookup h (one_less d).histories) (lookup h d.histories) i.not_above (i.histories h)
          (lookup-erase h d.last_block_height d.histories);
    session = i.session;
  }

  -- The loop of `rollbackBlock` deletes blocks from the last one down, with as many rounds as the last height lies
  -- above the target. It ends at the first height whose text does not come after the target's, not below the
  -- target; all heights that it passed came after it. The tables of blocks and of histories have lost exactly the
  -- entries above that height and up to the former last one, and the session is untouched.
  pub delete_above-IsDeleted :
      (n : ℕ) (target : ℤ) (d : SmartDb l schemas)
      → d.last_block_height ≡ target +ℤ pos n
      → IsDeleted target d (delete_above l schemas n target d)
  unfolding delete_above
  delete_above-IsDeleted zero target d far =
      stays-IsDeleted target d
        (ap (λ x. comes_after (decimal x) (decimal target)) (no_step d.last_block_height target far)
          ∙ comes_after_self (decimal target))
        (above_by d.last_block_height target 0 far)
  delete_above-IsDeleted (suc n) target d far =
      elim (Bool-cases (comes_after (decimal d.last_block_height) (decimal target))) [
        | inl more ↦
            rw (more, delete_above)
              (next-IsDeleted target d (delete_above l schemas n target (one_less d)) more (
                delete_above-IsDeleted n target (one_less d)
                  (step_back d.last_block_height target n far)))
        | inr stop ↦
            rw (stop, delete_above)
              (stays-IsDeleted target d stop (above_by d.last_block_height target (suc n) far))
      ]
