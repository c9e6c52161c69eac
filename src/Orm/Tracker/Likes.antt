-- ===== src/Orm/Tracker/Likes.antt =====
-- Views of the caches that show the same entities, by their properties.
use gny.Prelude.{
  String, ◌≡◌, refl, sym, ap, ◌∙◌, inl, inr, Bool, true, false, ◌&&◌, Option, none, some, List, [],
  ◌∷◌, arith, eq_iff, if◌then◌else◌, ◌==◌, nat_eq, string_eq, option_eq, Bool-cases,
}
use gny.Prelude.Int.{int_eq}
use mathlib.Core.Path.{subst}
use gny.Orm.Entity.{Entity, Same, entity_eq, entity_eqb_iff, json-partial_copy-Same}
use gny.Orm.Schema.{ModelIndex}
use gny.Orm.UniquedCache.Index.{is_full_of_key, some_inj}
use gny.Orm.UniquedCache.Indexed.{with_entry}
use gny.Orm.EntityCache.{put}
use gny.Orm.EntityCache.View.{View, updated, NoTwins}

-- The same entity, by its properties, or none in both.
abbrev pub Alike : Option Entity → Option Entity → Type 0
Alike none none = Unit
Alike (some e) (some d) = Same e d
Alike none (some d) = ⊥
Alike (some e) none = ⊥

abbrev pub Likes : View → View → Type 0
Likes v w = (model : String) (k : Entity) → Alike (v model k) (w model k)

pub Alike-refl : (o : Option Entity) → Alike o o
Alike-refl none = tt
Alike-refl (some e) = λ name. refl

Alike-trans : (o p q : Option Entity) → Alike o p → Alike p q → Alike o q
Alike-trans none none q h h' = h'
Alike-trans none (some d) q h h' = elim h [ ]
Alike-trans (some e) none q h h' = elim h [ ]
Alike-trans (some e) (some d) none h h' = elim h' [ ]
Alike-trans (some e) (some d) (some f) h h' = λ p. h p ∙ h' p

pub Alike-some :
    (o : Option Entity) (e : Entity) → Alike o (some e) → (d : Entity) × (o ≡ some d) × Same d e
Alike-some none e h = elim h [ ]
Alike-some (some d) e h = (d, refl, h)

pub Alike-none : (o : Option Entity) → Alike o none → o ≡ none
Alike-none none h = refl
Alike-none (some d) h = elim h [ ]

pub and_true : (a b : Bool) → (a && b) ≡ true → (a ≡ true) × (b ≡ true)
and_true true b h = (refl, h)
and_true false b h = cc

pub updated_here :
    (model m : String) (key k : Entity) (o : Option Entity) (v : View)
    → (model == m) ≡ true
    → (key == k) ≡ true
    → updated model key o v m k ≡ o
updated_here model m key k o v p q =
    ap (λ b. if b then with_entry key o (v m) k else v m k) p ∙ ap (λ b. if b then o else v m k) q

pub updated_there :
    (model m : String) (key k : Entity) (o : Option Entity) (v : View)
    → (model == m && key == k) ≡ false
    → updated model key o v m k ≡ v m k
updated_there model m key k o v h = ground arith

-- Where one entry was changed, changing it back gives the view before.
pub Likes-back :
    (model : String) (key : Entity) (put back : Option Entity) (v w : View)
    → Likes v (updated model key put w)
    → Alike back (w model key)
    → Likes (updated model key back v) w
Likes-back model key put back v w h same m k = elim (Bool-cases (model == m && key == k)) [
  | inl here ↦
      let (this, that) = and_true (model == m) (key == k) here in
      subst (λ o. Alike o (w m k)) (sym (updated_here model m key k back v this that))
        (subst (λ x. Alike back (w x k)) ((eq_iff model m).0 this)
          (subst (λ x. Alike back (w model x)) ((entity_eqb_iff key k).0 that) same))
  | inr apart ↦
      subst (λ o. Alike o (w m k)) (sym (updated_there model m key k back v apart))
        (subst (Alike (v m k)) (updated_there model m key k put w apart) (h m k))
]

pub Likes-at :
    (model : String) (key : Entity) (o : Option Entity) (v w : View)
    → Likes v (updated model key o w)
    → Alike (v model key) o
Likes-at model key o v w h =
    subst (Alike (v model key))
      (updated_here model model key key o w ((eq_iff model model).1 refl)
        ((entity_eqb_iff key key).1 refl))
      (h model key)

Alike-there :
    (o o' : Option Entity) (d : Entity)
    → o ≡ some d
    → Alike o o'
    → (d' : Entity) × (o' ≡ some d') × Same d d'
Alike-there none o' d e h = cc
Alike-there (some x) none d e h = elim h [ ]
Alike-there (some x) (some y) d e h = (y, refl, subst (λ z. Same z y) (some_inj e) h)

pub NoTwins-of_Alike :
    (v w : Entity → Option Entity) (ms : List ModelIndex)
    → ((k : Entity) → Alike (v k) (w k))
    → NoTwins w ms
    → NoTwins v ms
NoTwins-of_Alike v w [] same h = tt
NoTwins-of_Alike v w (m ∷ ms) same (alone, others) = (
  λ j k d e at_j at_k full named.
      let (d', at_j', d-same) = Alike-there (v j) (w j) d at_j (same j) in
      let (e', at_k', e-same) = Alike-there (v k) (w k) e at_k (same k) in
      let d-key = json-partial_copy-Same d d' m.properties d-same in
      alone j k d' e' at_j' at_k' (sym (is_full_of_key m.properties d d' d-key) ∙ full)
        (sym d-key ∙ named ∙ json-partial_copy-Same e e' m.properties e-same),
  NoTwins-of_Alike v w ms same others,
)

pub Likes-of_views :
    (v w b : View) → ((model : String) (k : Entity) → v model k ≡ w model k) → Likes w b → Likes v b
Likes-of_views v w b h same model k =
    subst (λ o. Alike o (b model k)) (sym (h model k)) (same model k)

pub Likes-trans : (u v w : View) → Likes u v → Likes v w → Likes u w
Likes-trans u v w h h' model k =
    Alike-trans (u model k) (v model k) (w model k) (h model k) (h' model k)
