-- ===== src/Orm/Versions/Kept.antt =====
-- packages/database-postgres/src/basicEntityTracker.ts, `acceptChanges`: how many versions the history keeps.
use gny.Prelude.{
  ℕ, zero, suc, ◌+◌, String, ◌≡◌, refl, ap, ◌∙◌, inl, inr, true, false, ◌&&◌, ◌||◌, none, some,
  List, arith, if◌then◌else◌, nat_eq, string_eq, option_eq, Bool-cases,
}
use gny.Prelude.Int.{
  ℤ, pos, negsuc, ◌+ℤ◌, ◌-ℤ◌, ltb_ℤ, leb_ℤ, eqb_ℤ, abs, int_eq, eqb_ℤ_iff, -ℤ_parts, +ℤ_parts,
}
use gny.Prelude.Map.{Map, lookup, has, insert, erase, lookup-insert, lookup-erase}
use gny.Orm.Schema.{ModelSchema}
use gny.Orm.UniquedCache.{Lru}
use gny.Orm.Changes.{EntityChanges}
use gny.Orm.Tracker.{Tracker}
use gny.Orm.Versions.{erase_versions, clear_history_before, remove_expired_history, accept_changes}

lookup-erase_versions :
    (n : ℕ) (from v : ℤ) (history : Map ℤ (List EntityChanges))
    → lookup v (erase_versions n from history)
      ≡ (if leb_ℤ from v && ltb_ℤ v (from +ℤ pos n) then none else lookup v history)
unfolding erase_versions
lookup-erase_versions zero from v history = ground (arith, +ℤ_parts from (pos 0))
lookup-erase_versions (suc n) from v history = ground (
  arith,
  lookup-erase_versions n (from +ℤ pos 1) v (erase from history),
  lookup-erase v from history,
  eqb_ℤ_iff from v,
  +ℤ_parts from (pos 1),
  +ℤ_parts (from +ℤ pos 1) (pos n),
  +ℤ_parts from (pos (suc n)),
)

-- The versions of a history lie between two bounds.
abbrev pub Within : ℤ → ℤ → Map ℤ (List EntityChanges) → Type 0
Within low high history = (v : ℤ) → has v history ≡ true → (leb_ℤ low v && leb_ℤ v high) ≡ true

Within-inserted :
    (low high : ℤ) (changes : List EntityChanges) (history : Map ℤ (List EntityChanges))
    → leb_ℤ low high ≡ true
    → Within low high history
    → Within low (high +ℤ pos 1) (insert (high +ℤ pos 1) changes history)
Within-inserted low high changes history ordered w v h = ground (
  arith,
  lookup-insert v (high +ℤ pos 1) changes history,
  w v,
  eqb_ℤ_iff (high +ℤ pos 1) v,
  +ℤ_parts high (pos 1),
)

Within-cleared :
    (low mid high : ℤ) (history : Map ℤ (List EntityChanges))
    → leb_ℤ low mid ≡ true
    → Within low high history
    → Within mid high (erase_versions (abs (mid -ℤ low)) low history)
Within-cleared low mid high history le w v h = ground (
  arith,
  lookup-erase_versions (abs (mid -ℤ low)) low v history,
  w v,
  -ℤ_parts mid low,
  +ℤ_parts low (pos (abs (mid -ℤ low))),
)

not_unset : (m : ℤ) → leb_ℤ (pos 0) m ≡ true → eqb_ℤ m (negsuc 0) ≡ false
not_unset m h = ground arith

module _ (current least : ℤ) (hold : ℕ) (expired : ltb_ℤ (pos hold) (current -ℤ least) ≡ true) where
  in_range : (leb_ℤ (current -ℤ pos hold) least || ltb_ℤ current (current -ℤ pos hold)) ≡ false
  in_range = ground (arith, -ℤ_parts current least, -ℤ_parts current (pos hold))

  least_below : leb_ℤ least (current -ℤ pos hold) ≡ true
  least_below = ground (arith, -ℤ_parts current least, -ℤ_parts current (pos hold))

  still_positive : leb_ℤ (pos 0) least ≡ true → leb_ℤ (pos 0) (current -ℤ pos hold) ≡ true
  still_positive h = ground (arith, -ℤ_parts current least, -ℤ_parts current (pos hold))

below_next : (current : ℤ) (hold : ℕ) → leb_ℤ (current -ℤ pos hold) (current +ℤ pos 1) ≡ true
below_next current hold = ground (arith, -ℤ_parts current (pos hold), +ℤ_parts current (pos 1))

held_after_clearing :
    (current : ℤ) (hold : ℕ)
    → leb_ℤ (current +ℤ pos 1) (current -ℤ pos hold +ℤ pos (hold + 1)) ≡ true
held_after_clearing current hold = ground (
  arith,
  -ℤ_parts current (pos hold),
  +ℤ_parts current (pos 1),
  +ℤ_parts (current -ℤ pos hold) (pos (hold + 1)),
)

held_without_clearing :
    (current least : ℤ) (hold : ℕ)
    → ltb_ℤ (pos hold) (current -ℤ least) ≡ false
    → leb_ℤ (current +ℤ pos 1) (least +ℤ pos (hold + 1)) ≡ true
held_without_clearing current least hold room =
    ground
      (arith, -ℤ_parts current least, +ℤ_parts current (pos 1), +ℤ_parts least (pos (hold + 1)))

next_above :
    (least current : ℤ) → leb_ℤ least current ≡ true → leb_ℤ least (current +ℤ pos 1) ≡ true
next_above least current h = ground (arith, +ℤ_parts current (pos 1))

own_history :
    (v : ℤ) (changes : List EntityChanges) (history : Map ℤ (List EntityChanges))
    → lookup v (insert v changes history) ≡ some changes
own_history v changes history =
    lookup-insert v v changes history
    ∙ ap (λ b. if b then some changes else lookup v history) ((eqb_ℤ_iff v v).1 refl)

own_history_stays :
    (current : ℤ) (hold : ℕ) (least : ℤ) (history : Map ℤ (List EntityChanges))
    → leb_ℤ least (current -ℤ pos hold) ≡ true
    → lookup (current +ℤ pos 1) (erase_versions (abs (current -ℤ pos hold -ℤ least)) least history)
      ≡ lookup (current +ℤ pos 1) history
own_history_stays current hold least history le = ground (
  arith,
  lookup-erase_versions (abs (current -ℤ pos hold -ℤ least)) least (current +ℤ pos 1) history,
  -ℤ_parts current (pos hold),
  -ℤ_parts (current -ℤ pos hold) least,
  +ℤ_parts current (pos 1),
  +ℤ_parts least (pos (abs (current -ℤ pos hold -ℤ least))),
)

module _ (l : Lru) (schemas : Map String ModelSchema) where
  -- The history has versions from the least to the current one only, and these are not more than the tracker is to
  -- hold and two.
  pub record IsKept (t : Tracker l schemas) : Type 0 where
    pub started : leb_ℤ (pos 0) t.min_version ≡ true
    pub ordered : leb_ℤ t.min_version t.current_version ≡ true
    pub within : Within t.min_version t.current_version t.history
    pub bounded :
        leb_ℤ t.current_version (t.min_version +ℤ pos (t.max_history_versions_hold + 1)) ≡ true

  -- `acceptChanges` of the next version keeps the history within its bounds, and the changes that were confirmed are
  -- the history of that version.
  pub accept_changes-IsKept :
      (t : Tracker l schemas)
      → IsKept t
      → IsKept (accept_changes l schemas (t.current_version +ℤ pos 1) t)
        × (lookup
              (t.current_version +ℤ pos 1)
              (accept_changes l schemas (t.current_version +ℤ pos 1) t).history
            ≡ some t.confirmed_changes)
  unfolding accept_changes remove_expired_history clear_history_before
  accept_changes-IsKept t kept =
      let current = t.current_version in
      let least = t.min_version in
      let hold = t.max_history_versions_hold in
      let history = insert (current +ℤ pos 1) t.confirmed_changes t.history in
      let own = own_history (current +ℤ pos 1) t.confirmed_changes t.history in
      let within =
        Within-inserted least current t.confirmed_changes t.history kept.ordered kept.within in
      elim (Bool-cases (ltb_ℤ (pos hold) (current -ℤ least))) [
        | inl expired ↦
            let mid = current -ℤ pos hold in
            let below = least_below current least hold expired in
            let positive = still_positive current least hold expired kept.started in
            rw
              (
                expired,
                in_range current least hold expired,
                not_unset mid positive,
                accept_changes,
                remove_expired_history,
                clear_history_before,
              )
              (
                record {
                  started = positive;
                  ordered = below_next current hold;
                  within = Within-cleared least mid (current +ℤ pos 1) history below within;
                  bounded = held_after_clearing current hold;
                },
                own_history_stays current hold least history below ∙ own,
              )
        | inr room ↦
            rw (room, not_unset least kept.started, accept_changes, remove_expired_history)
              (
                record {
                  started = kept.started;
                  ordered = next_above least current kept.ordered;
                  within = within;
                  bounded = held_without_clearing current least hold room;
                },
                own,
              )
      ]
