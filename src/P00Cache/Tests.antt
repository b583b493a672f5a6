-- ===== src/P00Cache/Tests.antt =====
-- Examples for src/p00cache.c.
use nodiskemu.Prelude.{[], ◌∷◌, ◌≡◌, arith}
use nodiskemu.P00Cache.{Cache, p00cache_lookup, p00cache_add}
use nodiskemu.P00Cache.Lookup.{inserted, p00cache_lookup-add}

abbrev one_name : Cache
one_name = record { cache_part = 1; names = record { cluster = 7; name = 65 ∷ [] } ∷ [] }

-- The name of another partition's file empties the cache.
p00cache_lookup-add_example :
    p00cache_lookup 2 9 (p00cache_add 4 2 9 (66 ∷ []) one_name)
    ≡ inserted 2 9 (66 ∷ []) one_name 2 9
p00cache_lookup-add_example = p00cache_lookup-add 4 2 9 (66 ∷ []) one_name 2 9 (omega arith)
