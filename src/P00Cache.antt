-- ===== src/P00Cache.antt =====
-- src/p00cache.c: the cache of the names of P00 files by their cluster, for one partition.
mod Tests
pub mod Lookup
use nodiskemu.Prelude.{
  ℕ, Option, none, some, List, [], ◌∷◌, ◌++◌, ◌==◌, if◌then◌else◌, length, take,
}

-- `p00name_t`
pub record Name : Type 0 where
  pub cluster : ℕ
  pub name : List ℕ

-- `cache_part`, and the first `entries` names of the array.
pub record Cache : Type 0 where
  pub cache_part : ℕ
  pub names : List Name

-- It has no argument: the old state is lost.
unfoldable pub p00cache_invalidate : Cache
p00cache_invalidate = record { cache_part = 255; names = [] }

unfoldable pub search_names : List Name → ℕ → Option (List ℕ)
search_names [] cluster = none
search_names (n ∷ names) cluster =
    let rest = search_names names cluster in if n.cluster == cluster then some n.name else rest

unfoldable pub p00cache_lookup : (part cluster : ℕ) → Cache → Option (List ℕ)
p00cache_lookup part cluster c = if part == c.cache_part then search_names c.names cluster else none

-- The cache for a partition: an empty one when it is for another one.
unfoldable pub cache_for : ℕ → Cache → Cache
cache_for part c =
    if part == c.cache_part then c else record (p00cache_invalidate) { cache_part = part }

-- `size` is the number of names that the array has room for; a name has 16 bytes.
unfoldable pub p00cache_add : (size part cluster : ℕ) → List ℕ → Cache → Cache
p00cache_add size part cluster name c =
    let c1 = cache_for part c in
    if length c.names == size
    then c
    else record c1 { names = c1.names ++ (record { cluster = cluster; name = take 16 name } ∷ []) }
