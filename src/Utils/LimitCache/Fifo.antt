-- ===== src/Utils/LimitCache/Fifo.antt =====
-- As long as no key is stored again under another value, as in `failedTrsCache`, a `LimitCache` is a
-- bounded first-in first-out set of keys.
use gny.Prelude.{
  ℕ, ◌≤◌, ◌<◌, ◌≡◌, refl, sym, ap, ◌∙◌, ◌⊎◌, inl, inr, true, false, none, some, List, [], ◌∷◌, ◌++◌,
  arith, leb, if◌then◌else◌, Eq, nat_eq, string_eq, is_some, length, contains, Distinct,
  Distinct-snoc,
}
use gny.Prelude.Map.{
  Map, lookup, has, insert, lookup-insert, lookup-erase, keys, has-contains, length-keys,
  keys-insert_new, keys-erase_head, length-insert_new,
}
use mathlib.Core.Path.{subst, ap₂}
use gny.Utils.LimitCache.{LimitCache, new, drop_oldest, store, set_entry, has_key}

module _ {ℓ} {K : Type ℓ} ⦃e : Eq K⦄ where
  abbrev rest_of : List K → List K
  rest_of [] = []
  rest_of (x ∷ rest) = rest

  -- The abstract set, oldest key first: a new key displaces the oldest one when the set is full.
  pub fifo_add : ℕ → K → List K → List K
  fifo_add limit key xs =
      if contains xs key then xs else (if leb limit (length xs) then rest_of xs else xs) ++ key ∷ []

  pub fifo_add_all : ℕ → List K → List K → List K
  fifo_add_all limit [] xs = xs
  fifo_add_all limit (k ∷ ks) xs = fifo_add_all limit ks (fifo_add limit k xs)

module _ {ℓ κ} {K : Type ℓ} {V : Type κ} ⦃e : Eq K⦄ ⦃f : Eq V⦄ where
  -- The index lists the keys of the map in order, each once, and there are at most `limit`.
  pub record IsFifo (c : LimitCache K V) : Type ℓ where
    pub positive : 0 < c.limit
    pub same : c.index ≡ keys c.cache
    pub distinct : Distinct (keys c.cache)
    pub bounded : length c.cache ≤ c.limit

  pub new-IsFifo : (limit : ℕ) → 0 < limit → IsFifo (new limit)
  new-IsFifo limit h = record { positive = h; same = refl; distinct = tt; bounded = omega arith }

  -- The value that is stored is the old one, if the key has one.
  abbrev pub Agrees : K → V → LimitCache K V → Type κ
  Agrees key value c = (lookup key c.cache ≡ none) ⊎ (lookup key c.cache ≡ some value)

  pub set_entry-known :
      (key : K) (value : V) (c : LimitCache K V)
      → lookup key c.cache ≡ some value
      → set_entry key value c ≡ c
  unfolding set_entry
  set_entry-known key value c h = ground (arith, f.eqb_iff value value)

  abbrev pub in_step : ℕ → Map K V → LimitCache K V
  in_step limit m = record { cache = m; index = keys m; limit = limit }

  -- Storing a new key in a map that has room.
  store_new :
      (key : K) (value : V) (limit : ℕ) (m : Map K V)
      → length m < limit
      → Distinct (keys m)
      → has key m ≡ false
      → IsFifo (record { cache = insert key value m; index = keys m ++ key ∷ []; limit = limit })
  store_new key value limit m room d h = record {
    positive = omega arith;
    same = sym (keys-insert_new key value m h);
    distinct =
        rw (keys-insert_new key value m h)
          (Distinct-snoc (keys m) key d (sym (has-contains key m) ∙ h));
    bounded = omega (arith, length-insert_new key value m h);
  }

  set_entry-new :
      (key : K) (value : V) (limit : ℕ) (m : Map K V)
      → IsFifo (in_step limit m)
      → lookup key m ≡ none
      → IsFifo (set_entry key value (in_step limit m))
        × ((set_entry key value (in_step limit m)).index ≡ fifo_add limit key (keys m))
  unfolding set_entry fifo_add
  set_entry-new key value limit [] h e =
      ground (arith, store_new key value limit [], h.positive, has-contains {V = V} key [])
  set_entry-new key value limit ((k, v) ∷ m) h e = ground (
    arith,
    store_new key value limit ((k, v) ∷ m),
    store_new key value limit m,
    h.distinct,
    h.bounded,
    h.positive,
    has-contains key ((k, v) ∷ m),
    has-contains key m,
    keys-erase_head k v m,
    length-keys m,
    length-keys ((k, v) ∷ m),
  )

  -- What the index lists is what the map has.
  pub has_key-contains : (c : LimitCache K V) (j : K) → IsFifo c → has_key j c ≡ contains c.index j
  has_key-contains c j h = rw h.same (has-contains j c.cache)

  fifo_add_known :
      (key : K) (limit : ℕ) (m : Map K V) → has key m ≡ true → fifo_add limit key (keys m) ≡ keys m
  unfolding fifo_add
  fifo_add_known key limit m h = ground (arith, has-contains key m)

  refines :
      (key : K) (value : V) (limit : ℕ) (m : Map K V)
      → IsFifo (in_step limit m)
      → Agrees key value (in_step limit m)
      → IsFifo (set_entry key value (in_step limit m))
        × ((set_entry key value (in_step limit m)).index ≡ fifo_add limit key (keys m))
  refines key value limit m h (inl fresh) = set_entry-new key value limit m h fresh
  refines key value limit m h (inr old) =
      rw (set_entry-known key value (in_step limit m) old)
        (h, sym (fifo_add_known key limit m (ap is_some old)))

  is_in_step : (c : LimitCache K V) → IsFifo c → in_step c.limit c.cache ≡ c
  is_in_step c h = λ i. record c { index = sym h.same i }

  -- On a cache whose index and map agree, storing a key that is new, or that has this value
  -- already, keeps them in agreement and within the limit, and the index becomes that of the
  -- bounded first-in first-out set: a known key changes nothing, and a new one goes to the end and
  -- displaces the oldest key when the set is full.
  pub set_entry_refines :
      (key : K) (value : V) (c : LimitCache K V)
      → IsFifo c
      → Agrees key value c
      → IsFifo (set_entry key value c)
        × ((set_entry key value c).index ≡ fifo_add c.limit key c.index)
  set_entry_refines key value c h a =
      subst
        (λ d.
          IsFifo d
          → Agrees key value d
          → IsFifo (set_entry key value d)
            × ((set_entry key value d).index ≡ fifo_add d.limit key d.index))
        (is_in_step c h) (refines key value c.limit c.cache) h a

  -- Every value that is stored is v.
  abbrev pub HoldsOnly : V → LimitCache K V → Type (ℓ ⊔ κ)
  HoldsOnly v c = (j : K) → Agrees j v c

  drop_oldest-lookup :
      (c : LimitCache K V) (xs : List K) (j : K)
      → (lookup j (drop_oldest c xs).cache ≡ none)
        ⊎ (lookup j (drop_oldest c xs).cache ≡ lookup j c.cache)
  unfolding drop_oldest
  drop_oldest-lookup c [] j = inr refl
  drop_oldest-lookup c (x ∷ rest) j = ground (arith, lookup-erase j x c.cache)

  set_entry-HoldsOnly :
      (key : K) (v : V) (c : LimitCache K V) → HoldsOnly v c → HoldsOnly v (set_entry key v c)
  unfolding set_entry store
  set_entry-HoldsOnly key v c h j = ground (
    arith,
    h j,
    drop_oldest-lookup c c.index j,
    lookup-insert j key v c.cache,
    lookup-insert j key v (drop_oldest c c.index).cache,
  )

  drop_oldest-limit : (c : LimitCache K V) (xs : List K) → (drop_oldest c xs).limit ≡ c.limit
  unfolding drop_oldest
  drop_oldest-limit c [] = refl
  drop_oldest-limit c (x ∷ rest) = refl

  set_entry-limit : (key : K) (v : V) (c : LimitCache K V) → (set_entry key v c).limit ≡ c.limit
  unfolding set_entry store
  set_entry-limit key v c = ground (arith, drop_oldest-limit c c.index)

  -- `AddFailedTrs` for each key in turn.
  pub add_all : V → List K → LimitCache K V → LimitCache K V
  add_all v [] c = c
  add_all v (k ∷ ks) c = add_all v ks (set_entry k v c)

  add_all_refines :
      (v : V) (ks : List K) (c : LimitCache K V)
      → IsFifo c
      → HoldsOnly v c
      → IsFifo (add_all v ks c) × ((add_all v ks c).index ≡ fifo_add_all c.limit ks c.index)
  unfolding add_all fifo_add_all
  add_all_refines v [] c h o = (h, refl)
  add_all_refines v (k ∷ ks) c h o =
      let (valid, same) = set_entry_refines k v c h (o k) in
      let (valid', same') =
        add_all_refines v ks (set_entry k v c) valid (set_entry-HoldsOnly k v c o) in
      (valid', same' ∙ ap₂ (λ n xs. fifo_add_all n ks xs) (set_entry-limit k v c) same)

  add_all-limit : (v : V) (ks : List K) (c : LimitCache K V) → (add_all v ks c).limit ≡ c.limit
  unfolding add_all
  add_all-limit v [] c = refl
  add_all-limit v (k ∷ ks) c = add_all-limit v ks (set_entry k v c) ∙ set_entry-limit k v c

  -- Whatever keys are stored in a new cache under one value, in any order and however often, the
  -- cache holds at most `limit` of them, and its index is that of the bounded first-in first-out set.
  pub add_all-new :
      (v : V) (ks : List K) (limit : ℕ)
      → 0 < limit
      → (length (add_all v ks (new limit)).cache ≤ limit)
        × ((add_all v ks (new limit)).index ≡ fifo_add_all limit ks [])
        × ((j : K) → has_key j (add_all v ks (new limit)) ≡ contains (fifo_add_all limit ks []) j)
  add_all-new v ks limit h =
      let (valid, same) =
        add_all_refines v ks (new limit) (new-IsFifo limit h) (λ j. inl (unfold lookup in refl)) in
      (
        omega (arith, valid.bounded, add_all-limit v ks (new limit)),
        same,
        λ j. has_key-contains (add_all v ks (new limit)) j valid ∙ ap (λ xs. contains xs j) same,
      )
