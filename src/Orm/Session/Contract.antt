-- ===== src/Orm/Session/Contract.antt =====
-- packages/database-postgres/src/dbSession.ts: a contract that is rolled back leaves rows and locks as they were.
use gny.Prelude.{
  String, ◌≡◌, refl, sym, ap, ◌∙◌, inl, inr, Bool, true, false, ◌||◌, List, [], ◌∷◌, nat_eq,
  string_eq, option_eq, Bool-cases, contains,
}
use gny.Prelude.Int.{int_eq}
use gny.Prelude.Map.{Map}
use mathlib.Core.Path.{subst}
use gny.Interfaces.{Result, ok, and_then}
use gny.Orm.Schema.{ModelSchema}
use gny.Orm.UniquedCache.{Lru, IsLru}
use gny.Orm.EntityCache.View.{IsCaches}
use gny.Orm.Tracker.{cancel_confirm}
use gny.Orm.Tracker.Likes.{Likes}
use gny.Orm.Tracker.Calls.{Call, call, shown, Fits, InContract}
use gny.Orm.Tracker.Cancel.{call-InContract, begin_confirm-InContract, cancel_confirm-IsRestored}
use gny.Orm.Session.{
  Session, lock_in_this_session, is_locked, begin_entity_transaction, rollback_entity_transaction,
}

-- What a contract does to the session.
pub data Step : Type 0 where
  locking : String → Step
  calling : Call → Step

or_self : (a b : Bool) → (b ≡ true → a ≡ true) → (a || b) ≡ (a || false)
or_self true b h = refl
or_self false true h = cc (h refl)
or_self false false h = refl

module _ (l : Lru) (laws : IsLru l) (schemas : Map String ModelSchema) where
  abbrev pub step : Step → Session l schemas → Session l schemas
  step (locking name) s = (lock_in_this_session l schemas name false s).1
  step (calling c) s = record s { tracker = (call l laws schemas c s.tracker).1 }

  abbrev pub run_steps : List Step → Session l schemas → Session l schemas
  run_steps [] s = s
  run_steps (x ∷ xs) s = run_steps xs (step x s)

  abbrev StepFits : Step → Session l schemas → Type 0
  StepFits (locking name) s = Unit
  StepFits (calling c) s =
      Fits l laws schemas c s.tracker × ((call l laws schemas c s.tracker).0 ≡ ok tt)

  -- Every row is created, modified or deleted as the tracker wants it, by a call that goes through.
  abbrev pub StepsFit : List Step → Session l schemas → Type 0
  StepsFit [] s = Unit
  StepsFit (x ∷ xs) s = StepFits x s × StepsFit xs (step x s)

  record InSteps (start s : Session l schemas) : Type 0 where
    pub tracked : InContract l laws schemas start.tracker s.tracker
    pub locks : s.confirmed_locks ≡ start.confirmed_locks

  lock_keeps :
      (name : String) (s : Session l schemas)
      → s.tracker.confirming ≡ true
      → ((lock_in_this_session l schemas name false s).1.tracker ≡ s.tracker)
        × ((lock_in_this_session l schemas name false s).1.confirmed_locks ≡ s.confirmed_locks)
  unfolding lock_in_this_session
  lock_keeps name s inside =
      elim (Bool-cases (contains s.confirmed_locks name || contains s.unconfirmed_locks name)) [
        | inl held ↦ rw held (refl, refl)
        | inr free ↦ rw free (rw inside (refl, refl))
      ]

  step-InSteps :
      (start : Session l schemas) (x : Step) (s : Session l schemas)
      → InSteps start s
      → StepFits x s
      → InSteps start (step x s)
  step-InSteps start (locking name) s i fits =
      let (same, locks) = lock_keeps name s i.tracked.confirming in
      record {
        tracked = subst (InContract l laws schemas start.tracker) (sym same) i.tracked;
        locks = locks ∙ i.locks;
      }
  step-InSteps start (calling c) s i (fits, done) = record {
    tracked = call-InContract l laws schemas start.tracker c s.tracker i.tracked fits done;
    locks = i.locks;
  }

  run_steps-InSteps :
      (start : Session l schemas) (xs : List Step) (s : Session l schemas)
      → InSteps start s
      → StepsFit xs s
      → InSteps start (run_steps xs s)
  run_steps-InSteps start [] s i fits = i
  run_steps-InSteps start (x ∷ xs) s i (fit, fits) =
      run_steps-InSteps start xs (step x s) (step-InSteps start x s i fit) fits

  -- Between contracts, a lock of the last contract is among those of the block.
  abbrev pub IsSettled : Session l schemas → Type 0
  IsSettled s =
      (name : String)
      → contains s.unconfirmed_locks name ≡ true
      → contains s.confirmed_locks name ≡ true

  -- A contract that is rolled back leaves nothing. Whatever it locks, and whatever rows of models with a version it
  -- creates, modifies and deletes by calls that go through, after `rollbackEntityTransaction`, which goes through
  -- as well, the caches show the rows that they showed before, and exactly the names are locked that were.
  pub rollback_entity_transaction_restores :
      (s : Session l schemas) (xs : List Step)
      → IsCaches l laws schemas s.tracker.caches
      → IsSettled s
      → StepsFit xs (begin_entity_transaction l schemas s)
      → ((rollback_entity_transaction l schemas
            (run_steps xs (begin_entity_transaction l schemas s))).0
          ≡ ok tt)
        × Likes
            (shown l laws schemas
              (rollback_entity_transaction l schemas
                (run_steps xs (begin_entity_transaction l schemas s))).1.tracker)
            (shown l laws schemas s.tracker)
        × ((name : String)
            → is_locked l schemas name
                (rollback_entity_transaction l schemas
                  (run_steps xs (begin_entity_transaction l schemas s))).1
              ≡ is_locked l schemas name s)
  unfolding rollback_entity_transaction cancel_confirm
  rollback_entity_transaction_restores s xs h settled fits =
      let u = run_steps xs (begin_entity_transaction l schemas s) in
      let begun : InSteps s (begin_entity_transaction l schemas s) = record {
        tracked = begin_confirm-InContract l laws schemas s.tracker h;
        locks = refl;
      } in
      let i = run_steps-InSteps s xs (begin_entity_transaction l schemas s) begun fits in
      let r = cancel_confirm-IsRestored l laws schemas s.tracker u.tracker i.tracked in
      let t = (cancel_confirm l schemas u.tracker).1 in
      let ends : rollback_entity_transaction l schemas u
          ≡ (ok tt, record u { tracker = t; unconfirmed_locks = [] }) =
        ap
          (λ (x : Result (Unit {0})).
            and_then (x, record u { tracker = t })
              (λ _ (s' : Session l schemas). (ok tt, record s' { unconfirmed_locks = [] })))
          r.done in
      (
        ap (λ x. x.0) ends,
        subst
            (λ (x : Result (Unit {0}) × Session l schemas).
              Likes (shown l laws schemas x.1.tracker) (shown l laws schemas s.tracker))
            (sym ends) r.rows,
        λ name.
            ap (λ (x : Result (Unit {0}) × Session l schemas). is_locked l schemas name x.1) ends
            ∙ ap (λ names. contains names name || false) i.locks
            ∙ sym (
                or_self (contains s.confirmed_locks name) (contains s.unconfirmed_locks name)
                  (settled name)),
      )
