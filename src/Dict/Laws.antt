-- ===== src/Dict/Laws.antt =====
-- Laws of the dictionary, as a finite map with distinct keys.
use ai_k8s_gateway.Base.{
  String, ◌≡◌, refl, ◌≢◌, none, some, List, [], ◌∷◌, ◌++◌, length, arith, if◌then◌else◌, ◌==◌,
  lookup, eq_iff, Bool-cases, inl, inr, ap, suc,
}
use ai_k8s_gateway.Dict.{Dict, put_entry, without, values_of, empty, get, put, pop, values, size}

module _ {ℓ} {V : Type ℓ} where
  abbrev pub IsFresh : String → List (String × V) → Type 0
  IsFresh k [] = Unit
  IsFresh k ((j, _) ∷ l) = (j ≢ k) × IsFresh k l

  abbrev pub HasDistinctKeys : List (String × V) → Type 0
  HasDistinctKeys [] = Unit
  HasDistinctKeys ((k, _) ∷ l) = IsFresh k l × HasDistinctKeys l

  lookup-put_entry :
      (k j : String) (v : V) (l : List (String × V))
      → lookup j (put_entry k v l) ≡ (if k == j then some v else lookup j l)
  unfolding lookup put_entry
  lookup-put_entry k j v [] = refl
  lookup-put_entry k j v ((i, w) ∷ l) =
      ground (arith, lookup-put_entry k j v l, eq_iff i k, eq_iff i j, eq_iff k j)

  IsFresh-lookup : (k : String) (l : List (String × V)) → IsFresh k l → lookup k l ≡ none
  unfolding lookup
  IsFresh-lookup k [] h = refl
  IsFresh-lookup k ((j, w) ∷ l) h = ground (arith, IsFresh-lookup k l, eq_iff j k)

  IsFresh-put_entry :
      (k j : String) (v : V) (l : List (String × V))
      → k ≢ j
      → IsFresh j l
      → IsFresh j (put_entry k v l)
  unfolding put_entry
  IsFresh-put_entry k j v [] ne h = ground arith
  IsFresh-put_entry k j v ((i, w) ∷ l) ne h =
      ground (arith, IsFresh-put_entry k j v l ne, eq_iff i k)

  IsFresh-without : (k j : String) (l : List (String × V)) → IsFresh j l → IsFresh j (without k l)
  unfolding without
  IsFresh-without k j [] h = h
  IsFresh-without k j ((i, w) ∷ l) h = ground (arith, IsFresh-without k j l)

  put_entry-HasDistinctKeys :
      (k : String) (v : V) (l : List (String × V))
      → HasDistinctKeys l
      → HasDistinctKeys (put_entry k v l)
  unfolding put_entry
  put_entry-HasDistinctKeys k v [] h = ground arith
  put_entry-HasDistinctKeys k v ((i, w) ∷ l) h =
      ground (arith, put_entry-HasDistinctKeys k v l, IsFresh-put_entry k i v l, eq_iff i k)

  without-HasDistinctKeys :
      (k : String) (l : List (String × V)) → HasDistinctKeys l → HasDistinctKeys (without k l)
  unfolding without
  without-HasDistinctKeys k [] h = h
  without-HasDistinctKeys k ((i, w) ∷ l) h =
      ground (arith, without-HasDistinctKeys k l, IsFresh-without k i l)

  lookup-without :
      (k j : String) (l : List (String × V))
      → HasDistinctKeys l
      → lookup j (without k l) ≡ (if k == j then none else lookup j l)
  unfolding lookup without
  lookup-without k j [] h = ground arith
  lookup-without k j ((i, w) ∷ l) h =
      ground (arith, lookup-without k j l, IsFresh-lookup i l, eq_iff i k, eq_iff i j, eq_iff k j)

  length-values_of : (l : List (String × V)) → length l ≡ length (values_of l)
  unfolding values_of
  length-values_of [] = refl
  length-values_of ((_, v) ∷ l) = ap suc (length-values_of l)

  -- The dict holds each key once.
  pub record IsValid (d : Dict V) : Type 0 where
    pub distinct : HasDistinctKeys d.entries

  pub empty-IsValid : IsValid (empty {V = V})
  unfolding empty
  empty-IsValid = record { distinct = tt }

  pub put-IsValid : (k : String) (v : V) {d : Dict V} → IsValid d → IsValid (put k v d)
  unfolding put
  put-IsValid k v {d} h = record { distinct = put_entry-HasDistinctKeys k v d.entries h.distinct }

  pub pop-IsValid : (k : String) {d : Dict V} → IsValid d → IsValid (pop k d).1
  unfolding pop
  pop-IsValid k {d} h = record { distinct = without-HasDistinctKeys k d.entries h.distinct }

  pub get-empty : (k : String) → get k (empty {V = V}) ≡ none
  unfolding get empty lookup
  get-empty k = refl

  pub get-put :
      (k j : String) (v : V) (d : Dict V) → get j (put k v d) ≡ (if k == j then some v else get j d)
  unfolding get put
  get-put k j v d = lookup-put_entry k j v d.entries

  pub get-pop :
      (k j : String) {d : Dict V}
      → IsValid d
      → get j (pop k d).1 ≡ (if k == j then none else get j d)
  unfolding get pop
  get-pop k j {d} h = lookup-without k j d.entries h.distinct

  pub pop-get : (k : String) (d : Dict V) → (pop k d).0 ≡ get k d
  unfolding get pop
  pop-get k d = refl

  values_of-fresh :
      (k : String) (v : V) (l : List (String × V))
      → lookup k l ≡ none
      → values_of (put_entry k v l) ≡ values_of l ++ v ∷ []
  unfolding values_of put_entry lookup
  values_of-fresh k v [] h = refl
  values_of-fresh k v ((j, w) ∷ l) h = ground (arith, values_of-fresh k v l)

  -- A new key comes last.
  pub values-put_fresh :
      (k : String) (v : V) (d : Dict V) → get k d ≡ none → values (put k v d) ≡ values d ++ v ∷ []
  unfolding get put values
  values-put_fresh k v d h = values_of-fresh k v d.entries h

  values_of-without :
      (k : String) (v : V) (l : List (String × V))
      → lookup k l ≡ some v
      → (before : List V) × (after : List V) × (values_of l ≡ before ++ v ∷ after)
        × (values_of (without k l) ≡ before ++ after)
  unfolding values_of without lookup
  values_of-without k v [] h = cc
  values_of-without k v ((j, w) ∷ l) h = elim (Bool-cases (j == k)) [
    | inl same ↦ ([], values_of l, ground arith, ground arith)
    | inr other ↦
        let (before, after, whole, rest) = values_of-without k v l (ground arith) in
        (w ∷ before, after, ap (◌∷◌ w) whole, rw other (ap (◌∷◌ w) rest))
  ]

  -- What is popped leaves the other values in their order.
  pub values-pop :
      (k : String) (v : V) (d : Dict V)
      → get k d ≡ some v
      → (before : List V) × (after : List V) × (values d ≡ before ++ v ∷ after)
        × (values (pop k d).1 ≡ before ++ after)
  unfolding get pop values
  values-pop k v d h = values_of-without k v d.entries h

  pub size-values : (d : Dict V) → size d ≡ length (values d)
  unfolding size values
  size-values d = length-values_of d.entries
