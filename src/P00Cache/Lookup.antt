-- ===== src/P00Cache/Lookup.antt =====
-- The cache of src/p00cache.c as a finite map.
use nodiskemu.Prelude.{
  ℕ, ◌≤◌, false, Option, none, some, List, [], ◌∷◌, ◌++◌, ◌≡◌, ◌≢◌, refl, ◌==◌, if◌then◌else◌,
  length, length-append, take, arith, Bool-cases, inl, inr,
}
use nodiskemu.P00Cache.{
  Name, Cache, p00cache_invalidate, search_names, p00cache_lookup, cache_for, p00cache_add,
}

abbrev or_else : Option (List ℕ) → Option (List ℕ) → Option (List ℕ)
or_else none b = b
or_else (some a) b = some a

-- The map that the cache stands for, behind an insertion.
pub inserted : (part cluster : ℕ) → List ℕ → Cache → (p k : ℕ) → Option (List ℕ)
inserted part cluster name c p k =
    if p == part
    then or_else (p00cache_lookup p k c) (if cluster == k then some (take 16 name) else none)
    else none

search_names-append :
    (names : List Name) (n : Name) (k : ℕ)
    → search_names (names ++ (n ∷ [])) k
      ≡ or_else (search_names names k) (if n.cluster == k then some n.name else none)
unfolding search_names
search_names-append [] n k = refl
search_names-append (m ∷ names) n k = elim (Bool-cases (m.cluster == k)) [
  | inl e ↦ rw e refl
  | inr e ↦ rw e (search_names-append names n k)
]

-- With room in the array, a lookup behind p00cache_add finds what a map of one partition has
-- behind an insertion: the names of the same partition that were there, the new name for a
-- cluster that had none, and nothing for another partition.
pub p00cache_lookup-add :
    (size part cluster : ℕ) (name : List ℕ) (c : Cache) (p k : ℕ)
    → length c.names ≢ size
    → p00cache_lookup p k (p00cache_add size part cluster name c) ≡ inserted part cluster name c p k
unfolding p00cache_add p00cache_lookup inserted cache_for p00cache_invalidate search_names
p00cache_lookup-add size part cluster name c p k room =
    let not_full : (length c.names == size) ≡ false = ground (arith, room) in
    elim (Bool-cases (part == c.cache_part)) [
      | inl e ↦
          let same : part ≡ c.cache_part = ground (arith, e) in
          elim (Bool-cases (p == c.cache_part)) [
            | inl q ↦ rw (not_full, e, same, q) (search_names-append c.names _ k)
            | inr q ↦ rw (not_full, e, same, q) refl
          ]
      | inr e ↦ elim (Bool-cases (p == part)) [
        | inr q ↦ rw (not_full, e, q) refl
        | inl q ↦
            let other : (p == c.cache_part) ≡ false = ground (arith, e, q) in
            rw (not_full, e, q, other) refl
      ]
    ]

-- The array does not overflow.
pub p00cache_add-bound :
    (size part cluster : ℕ) (name : List ℕ) (c : Cache)
    → length c.names ≤ size
    → length (p00cache_add size part cluster name c).names ≤ size
unfolding p00cache_add cache_for p00cache_invalidate
p00cache_add-bound size part cluster name c h = elim (Bool-cases (length c.names == size)) [
  | inl e ↦ rw e h
  | inr e ↦ elim (Bool-cases (part == c.cache_part)) [
    | inl q ↦
        rw (e, q)
          (ground (
            arith,
            e,
            length-append c.names (record { cluster = cluster; name = take 16 name } ∷ []),
          ))
    | inr q ↦ rw (e, q) (ground (arith, e))
  ]
]
