-- ===== src/Base/Table.antt =====
-- A hash map from keys to vectors, as the parsers fill it: an association list with one entry a key.
-- The order of the entries is never observed by the code.
use solus_protocol.Base.{
  ◌≡◌, refl, sym, subst, All, any, ◌||◌, Bool-cases, inl, inr, Bool, true, false, Option, none,
  some, List, [], ◌∷◌, ◌++◌, arith, Eq, ◌==◌, if◌then◌else◌,
}
use mathlib.Core.List.{append_assoc, append-nil}

abbrev pub Table : Type 0 → Type 0 → Type 0
Table K V = List (K × List V)

module _ {K V : Type 0} ⦃e : Eq K⦄ where
  -- `map.entry(k).or_default().push(v)`
  abbrev pub push : K → V → Table K V → Table K V
  push k v [] = (k, v ∷ []) ∷ []
  push k v ((j, vs) ∷ t) = if k == j then (j, vs ++ v ∷ []) ∷ t else (j, vs) ∷ push k v t

  -- `map.get(&k)`
  abbrev pub get : K → Table K V → Option (List V)
  get k [] = none
  get k ((j, vs) ∷ t) = if k == j then some vs else get k t

  -- `map.get(&k).unwrap_or(&vec![])`
  abbrev pub get_or_empty : K → Table K V → List V
  get_or_empty k t = elim (get k t) [ none ↦ [] | some vs ↦ vs ]

  -- `map.contains_key(&k)`
  abbrev pub contains_key : K → Table K V → Bool
  contains_key k t = elim (get k t) [ none ↦ false | some vs ↦ true ]

  unfoldable pub push_all : List (K × V) → Table K V → Table K V
  push_all [] t = t
  push_all ((k, v) ∷ kvs) t = push_all kvs (push k v t)

  -- The values under one key, in order.
  unfoldable pub select : K → List (K × V) → List V
  select k [] = []
  select k ((j, v) ∷ kvs) = if k == j then v ∷ select k kvs else select k kvs

  pub get_or_empty-push :
      (j k : K) (v : V) (t : Table K V)
      → get_or_empty j (push k v t)
        ≡ (if j == k then get_or_empty j t ++ v ∷ [] else get_or_empty j t)
  get_or_empty-push j k v [] = ground arith
  get_or_empty-push j k v ((i, vs) ∷ t) =
      ground (arith, get_or_empty-push j k v t, e.equal_iff j k, e.equal_iff k i, e.equal_iff j i)

  pub get_or_empty-push_all :
      (j : K) (kvs : List (K × V)) (t : Table K V)
      → get_or_empty j (push_all kvs t) ≡ get_or_empty j t ++ select j kvs
  unfolding push_all select
  get_or_empty-push_all j [] t = sym (append-nil _)
  get_or_empty-push_all j ((k, v) ∷ kvs) t = ground (
    arith,
    get_or_empty-push_all j kvs (push k v t),
    get_or_empty-push j k v t,
    append_assoc (get_or_empty j t) (v ∷ []) (select j kvs),
  )

module _ {K V : Type 0} ⦃e : Eq K⦄ where
  contains_key-push :
      (j k : K) (v : V) (t : Table K V) → contains_key j (push k v t) ≡ (j == k || contains_key j t)
  contains_key-push j k v [] = ground arith
  contains_key-push j k v ((i, vs) ∷ t) =
      ground (arith, contains_key-push j k v t, e.equal_iff j k, e.equal_iff k i, e.equal_iff j i)

  pub contains_key-push_all :
      (j : K) (kvs : List (K × V)) (t : Table K V)
      → contains_key j (push_all kvs t) ≡ (any (λ kv. j == kv.0) kvs || contains_key j t)
  unfolding push_all
  contains_key-push_all j [] t = refl
  contains_key-push_all j ((k, v) ∷ kvs) t =
      ground (arith, contains_key-push_all j kvs (push k v t), contains_key-push j k v t)

-- What holds of the values under every key holds of every pair, and conversely.
module _ {K V : Type 0} ⦃e : Eq K⦄ (P : K → V → Type 0) where
  All-select_cons :
      (j k : K) (v : V) (kvs : List (K × V))
      → All (P j) (select j ((k, v) ∷ kvs))
      → All (P j) (select j kvs)
  unfolding select
  All-select_cons j k v kvs h = elim (Bool-cases (j == k)) [
    | inl q ↦ (rw (q, if◌then◌else◌) at h).1
    | inr q ↦ rw (q, if◌then◌else◌) at h
  ]

  pub All-of_select :
      (kvs : List (K × V)) → ((k : K) → All (P k) (select k kvs)) → All (λ kv. P kv.0 kv.1) kvs
  unfolding select
  All-of_select [] h = tt
  All-of_select ((k, v) ∷ kvs) h = (
    (rw ((e.equal_iff k k).1 refl, if◌then◌else◌) at (h k)).0,
    All-of_select kvs (λ j. All-select_cons j k v kvs (h j)),
  )

  pub All-select :
      (kvs : List (K × V)) → All (λ kv. P kv.0 kv.1) kvs → (k : K) → All (P k) (select k kvs)
  unfolding select
  All-select [] h k = tt
  All-select ((j, v) ∷ kvs) h k = elim (Bool-cases (k == j)) [
    | inl q ↦
        rw (q, if◌then◌else◌)
          (subst (λ i. P i v) (sym ((e.equal_iff k j).0 q)) h.0, All-select kvs h.1 k)
    | inr q ↦ rw (q, if◌then◌else◌) (All-select kvs h.1 k)
  ]
