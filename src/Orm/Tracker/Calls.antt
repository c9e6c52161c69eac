-- ===== src/Orm/Tracker/Calls.antt =====
-- packages/database-postgres/src/basicEntityTracker.ts: runs of tracked changes, and what they keep while they can
-- be taken back.
use gny.Prelude.{
  String, ◌≡◌, refl, sym, ap, ◌∙◌, true, false, none, some, List, [], ◌∷◌, ◌++◌, if◌then◌else◌,
  nat_eq, string_eq, option_eq, Distinct,
}
use gny.Prelude.Int.{ℤ, int_eq}
use gny.Prelude.Map.{Map, lookup, keys}
use mathlib.Core.Path.{subst}
use gny.Interfaces.{Result, ok, err}
use gny.Orm.Entity.{number, Entity, property, json, entity_eq}
use gny.Orm.Schema.{
  ModelSchema, is_valid_property, is_valid_primary_key, get_normalized_primary_key,
}
use gny.Orm.UniquedCache.{Lru, IsLru}
use gny.Orm.EntityCache.{Caches}
use gny.Orm.EntityCache.View.{View, view, IsCaches}
use gny.Orm.Changes.{EntityChanges, version_property}
use gny.Orm.Tracker.{undo_entity_changes}
use gny.Orm.Tracker.Likes.{Likes, Likes-trans}
use gny.Orm.Entity.{value_eq}
use gny.Orm.Changes.{reversed}
use gny.Orm.Tracker.{
  Tracker, new_entity, push_changes, track_new, track_modify, track_delete, undo_latest, after_undo,
}
use gny.Orm.Tracker.Undo.{Undoes, IsModel}

-- The calls that are recorded.
pub data Call : Type 0 where
  creating : ModelSchema → Entity → Call
  modifying : ModelSchema → Entity → Entity → Call
  deleting : ModelSchema → Entity → Call

reversed-snoc :
    (cs : List EntityChanges) (c : EntityChanges) → reversed (cs ++ c ∷ []) ≡ c ∷ reversed cs
reversed-snoc [] c = refl
reversed-snoc (d ∷ cs) c = ap (λ x. x ++ d ∷ []) (reversed-snoc cs c)

after_undo_ok :
    (l : Lru) (schemas : Map String ModelSchema) (r : Result (Unit {0}) × Caches l schemas)
    (cs : List EntityChanges)
    (next : Caches l schemas → Result (Unit {0}) × List EntityChanges × Caches l schemas)
    → r.0 ≡ ok tt
    → after_undo l schemas r cs next ≡ next r.1
after_undo_ok l schemas (ok a, s) cs next h = refl
after_undo_ok l schemas (err message, s) cs next h = cc

module _ (l : Lru) (laws : IsLru l) (schemas : Map String ModelSchema) where
  abbrev pub call : Call → Tracker l schemas → Result (Unit {0}) × Tracker l schemas
  call (creating schema e) t = track_new l schemas schema e t
  call (modifying schema e modifier) t = track_modify l schemas schema e modifier t
  call (deleting schema e) t = track_delete l schemas schema e t

  abbrev pub shown : Tracker l schemas → View
  shown t = view l laws schemas t.caches

  -- What a call is made with: a created row has its whole key, which no default changes; a row that is
  -- changed or deleted is the cached object.
  abbrev pub Fits : Call → Tracker l schemas → Type 0
  Fits (creating schema e) t =
      IsModel l laws schemas schema
      × (is_valid_primary_key schema (get_normalized_primary_key schema e) ≡ true)
      × (get_normalized_primary_key schema (new_entity l schemas schema e)
          ≡ get_normalized_primary_key schema e)
  Fits (modifying schema e modifier) t =
      IsModel l laws schemas schema
      × (shown t schema.model_name (json (get_normalized_primary_key schema e)) ≡ some e)
      × (n : ℤ) × (property version_property e ≡ number n)
  Fits (deleting schema e) t =
      IsModel l laws schemas schema
      × (shown t schema.model_name (json (get_normalized_primary_key schema e)) ≡ some e)
      × (is_valid_primary_key schema (get_normalized_primary_key schema e) ≡ true)
      × Distinct (keys e)
      × ((p : String) → is_valid_property schema p ≡ false → lookup p e ≡ none)

  -- Undoing the changes, the latest first, leads from one view to the other.
  abbrev pub Trail : List EntityChanges → View → View → Type 0
  Trail [] v w = Likes v w
  Trail (c ∷ cs) v w = (u : View) × Undoes l laws schemas c v u × Trail cs u w

  pub undo_latest-Shows :
      (cs : List EntityChanges) (v w : View) (s : Caches l schemas)
      → Trail cs v w
      → IsCaches l laws schemas s
      → Likes (view l laws schemas s) v
      → (s' : Caches l schemas) × (undo_latest l schemas cs s ≡ (ok tt, [], s'))
        × IsCaches l laws schemas s'
        × Likes (view l laws schemas s') w
  unfolding undo_latest
  undo_latest-Shows [] v w s trail h same =
      (s, refl, h, Likes-trans (view l laws schemas s) v w same trail)
  undo_latest-Shows (c ∷ cs) v w s (u, undoes, trail) h same =
      let (done, caches, likes) = undoes s h same in
      let (s', rest, caches', likes') =
        undo_latest-Shows cs u w (undo_entity_changes l schemas c s).1 trail caches likes in
      (
        s',
        after_undo_ok l schemas (undo_entity_changes l schemas c s) cs (undo_latest l schemas cs)
              done
            ∙ rest,
        caches',
        likes',
      )

  -- A tracker inside a contract, whose changes lead back to what it was.
  pub record InContract (start : Tracker l schemas) (t : Tracker l schemas) : Type 0 where
    pub confirming : t.confirming ≡ true
    pub caches : IsCaches l laws schemas t.caches
    pub trail : Trail (reversed t.unconfirmed_changes) (shown t) (shown start)
    pub confirmed : t.confirmed_changes ≡ start.confirmed_changes

  abbrev pub noted : EntityChanges → Caches l schemas → Tracker l schemas → Tracker l schemas
  noted c s t = record t { caches = s; unconfirmed_changes = t.unconfirmed_changes ++ c ∷ [] }

  pub pushed :
      (c : EntityChanges) (t : Tracker l schemas)
      → t.confirming ≡ true
      → push_changes l schemas c t
        ≡ record t { unconfirmed_changes = t.unconfirmed_changes ++ c ∷ [] }
  pushed c t h =
      ap
        (λ b.
          if b
          then record t { unconfirmed_changes = t.unconfirmed_changes ++ c ∷ [] }
          else record t { confirmed_changes = t.confirmed_changes ++ c ∷ [] })
        h

  pub noted-InContract :
      (start : Tracker l schemas) (c : EntityChanges) (s : Caches l schemas) (t : Tracker l schemas)
      → InContract start t
      → IsCaches l laws schemas s
      → Undoes l laws schemas c (view l laws schemas s) (shown t)
      → InContract start (noted c s t)
  noted-InContract start c s t i h undoes = record {
    confirming = i.confirming;
    caches = h;
    trail =
        subst (λ cs. Trail cs (view l laws schemas s) (shown start))
          (sym (reversed-snoc t.unconfirmed_changes c)) (shown t, undoes, i.trail);
    confirmed = i.confirmed;
  }
