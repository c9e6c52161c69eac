-- ===== src/Orm/Tracker/Cancel.antt =====
-- packages/database-postgres/src/basicEntityTracker.ts: `cancelConfirm` after a run of tracked changes.
use gny.Prelude.{
  String, ◌≡◌, refl, sym, ap, ◌∙◌, Bool, true, false, not, ◌&&◌, ◌||◌, List, [], ◌∷◌, if◌then◌else◌,
  ◌==◌, nat_eq, string_eq, option_eq, contains,
}
use gny.Prelude.Int.{int_eq}
use gny.Prelude.Map.{Map}
use mathlib.Core.Path.{subst}
use gny.Interfaces.{Result, ok, and_then}
use gny.Orm.Entity.{Entity, property, entity_eq}
use gny.Orm.Schema.{ModelSchema, is_valid_property}
use gny.Orm.UniquedCache.{Lru, IsLru}
use gny.Orm.EntityCache.{PropertyValue, names_of, Caches}
use gny.Orm.EntityCache.View.{IsCaches}
use gny.Orm.Changes.{EntityChanges, version_property}
use gny.Orm.Tracker.Likes.{Likes, Alike-refl}
use gny.Orm.Entity.{value_eq}
use gny.Orm.Changes.{changing, reversed}
use gny.Orm.Tracker.{Tracker, track_modify, undo_latest, begin_confirm, cancel_confirm}
use gny.Orm.Tracker.Calls.{
  Call, creating, modifying, deleting, call, shown, Fits, undo_latest-Shows, InContract,
}
use gny.Orm.Tracker.Steps.{creating-InContract, deleting-InContract}
use gny.Orm.Tracker.Modify.{modifying-InContract}

names_of_if :
    (b : Bool) (p : PropertyValue) (rest : List PropertyValue) (name : String)
    → (b ≡ true → (p.name == name) ≡ false)
    → contains (names_of rest) name ≡ false
    → contains (names_of (if b then p ∷ rest else rest)) name ≡ false
names_of_if true p rest name apart h = ap (λ x. x || contains (names_of rest) name) (apart refl) ∙ h
names_of_if false p rest name apart h = h

second_fails : (a b c : Bool) → (a && not b && not c) ≡ true → b ≡ false
second_fails true false c h = refl
second_fails true true c h = cc
second_fails false b c h = cc

unversioned :
    (schema : ModelSchema) (e modifier : Entity)
    → contains (names_of (changing schema e modifier)) version_property ≡ false
unversioned schema e [] = refl
unversioned schema e ((p, v) ∷ modifier) =
    names_of_if
      (is_valid_property schema p && not (p == version_property) && not (property p e == v))
      (record { name = p; value = v }) (changing schema e modifier) version_property
      (second_fails (is_valid_property schema p) (p == version_property) (property p e == v))
      (unversioned schema e modifier)

module _ (l : Lru) (laws : IsLru l) (schemas : Map String ModelSchema) where
  pub call-InContract :
      (start : Tracker l schemas) (c : Call) (t : Tracker l schemas)
      → InContract l laws schemas start t
      → Fits l laws schemas c t
      → (call l laws schemas c t).0 ≡ ok tt
      → InContract l laws schemas start (call l laws schemas c t).1
  unfolding track_modify
  call-InContract start (creating schema e) t i fits done =
      creating-InContract l laws schemas start schema e t i fits done
  call-InContract start (modifying schema e modifier) t i (is, here, n, at) done =
      modifying-InContract l laws schemas start schema e (changing schema e modifier) t i is here n
        at (unversioned schema e modifier) done
  call-InContract start (deleting schema e) t i fits done =
      deleting-InContract l laws schemas start schema e t i fits

  abbrev pub run_calls : List Call → Tracker l schemas → Tracker l schemas
  run_calls [] t = t
  run_calls (c ∷ cs) t = run_calls cs (call l laws schemas c t).1

  -- Every call is made as it wants, and goes through.
  abbrev pub AllFit : List Call → Tracker l schemas → Type 0
  AllFit [] t = Unit
  AllFit (c ∷ cs) t =
      Fits l laws schemas c t
      × ((call l laws schemas c t).0 ≡ ok tt)
      × AllFit cs (call l laws schemas c t).1

  run_calls-InContract :
      (start : Tracker l schemas) (cs : List Call) (t : Tracker l schemas)
      → InContract l laws schemas start t
      → AllFit cs t
      → InContract l laws schemas start (run_calls cs t)
  run_calls-InContract start [] t i fits = i
  run_calls-InContract start (c ∷ cs) t i (fits, done, others) =
      run_calls-InContract start cs (call l laws schemas c t).1
        (call-InContract start c t i fits done) others

  cancel_confirm-eq :
      (t : Tracker l schemas) (s : Caches l schemas)
      → undo_latest l schemas (reversed t.unconfirmed_changes) t.caches ≡ (ok tt, [], s)
      → cancel_confirm l schemas t
        ≡ (ok tt, record t { caches = s; unconfirmed_changes = []; confirming = false })
  unfolding cancel_confirm
  cancel_confirm-eq t s e =
      ap
        (λ (r : Result (Unit {0}) × List EntityChanges × Caches l schemas).
          and_then (r.0, record t { caches = r.2; unconfirmed_changes = reversed r.1 })
            (λ _ (t' : Tracker l schemas). (ok tt, record t' { confirming = false })))
        e

  pub begin_confirm-InContract :
      (t : Tracker l schemas)
      → IsCaches l laws schemas t.caches
      → InContract l laws schemas t (begin_confirm l schemas t)
  begin_confirm-InContract t h = record {
    confirming = refl;
    caches = h;
    trail = λ model k. Alike-refl (shown l laws schemas t model k);
    confirmed = refl;
  }

  -- What is as it was when a contract is taken back.
  pub record IsRestored (start : Tracker l schemas) (r : Result (Unit {0}) × Tracker l schemas)
      : Type 0 where
    pub done : r.0 ≡ ok tt
    pub rows : Likes (shown l laws schemas r.1) (shown l laws schemas start)
    pub caches : IsCaches l laws schemas r.1.caches
    pub unconfirmed : r.1.unconfirmed_changes ≡ []
    pub confirmed : r.1.confirmed_changes ≡ start.confirmed_changes
    pub confirming : r.1.confirming ≡ false

  pub cancel_confirm-IsRestored :
      (start u : Tracker l schemas)
      → InContract l laws schemas start u
      → IsRestored start (cancel_confirm l schemas u)
  cancel_confirm-IsRestored start u i =
      let (s, undone, caches, likes) =
        undo_latest-Shows l laws schemas (reversed u.unconfirmed_changes) (shown l laws schemas u)
          (shown l laws schemas start) u.caches i.trail i.caches
          (λ model k. Alike-refl (shown l laws schemas u model k)) in
      subst (IsRestored start) (sym (cancel_confirm-eq u s undone)) (record {
        done = refl;
        rows = likes;
        caches = caches;
        unconfirmed = refl;
        confirmed = i.confirmed;
        confirming = refl;
      })

  -- `cancelConfirm` takes a contract back. Whatever rows of models with a version are created, modified and
  -- deleted after `beginConfirm`, by calls that go through, undoing them goes through as well: the caches show the
  -- rows that they showed before, with the same properties, their unique indexes are right, no change is left
  -- that is not confirmed, and the confirmed ones are as they were.
  pub cancel_confirm_restores :
      (t : Tracker l schemas) (cs : List Call)
      → IsCaches l laws schemas t.caches
      → AllFit cs (begin_confirm l schemas t)
      → IsRestored t (cancel_confirm l schemas (run_calls cs (begin_confirm l schemas t)))
  cancel_confirm_restores t cs h fits =
      cancel_confirm-IsRestored t (run_calls cs (begin_confirm l schemas t))
        (run_calls-InContract t cs (begin_confirm l schemas t) (begin_confirm-InContract t h) fits)
