-- ===== src/Examples/Caches.antt =====
-- Object caches and the large requests of the kernel's heap.
use closure_os.Base.{◌*◌, ◌^◌, ◌≤◌, ◌≡◌, refl, some, arith}
use closure_os.Kernel.{Kernel, ok}
use closure_os.Cache.{init, malloc, free}
use closure_os.Cache.Geometry.{init-geometry}
use closure_os.Cache.Reuse.{malloc-free, free-not_reused}
use closure_os.Examples.Pools.{memory, zero_page, zero_cache}

init-geometry_example :
    let c = (init 0 192 memory).cache 0 in
    (c.obj_sz ≡ 192) × (1 ≤ c.page_obj_nr) × (c.page_obj_nr * c.obj_sz ≤ 4096 * 2 ^ c.order)
init-geometry_example = init-geometry 0 192 memory (omega arith) (omega arith)

-- Cache 0 hands out objects of page 3; its pages hold 64 objects.
abbrev caching : Kernel
caching = record memory {
  cache = λ k. record zero_cache { current = some 3; page_obj_nr = 64; obj_sz = 64 };
}

malloc-free_example :
    (after : Kernel) × (after' : Kernel) × (free 0 3 0x3040 caching ≡ ok tt after)
    × (malloc 1 0 after ≡ ok 0x3040 after')
    × ((after'.cache 0) ≡ caching.cache 0)
    × ((after'.page 3) ≡ caching.page 3)
malloc-free_example = malloc-free 0 0 3 0x3040 caching refl refl (omega arith) (omega arith)

free-not_reused_example :
    (after : Kernel) × (free 0 4 0x4040 caching ≡ ok tt after)
    × (after.words ≡ caching.words)
    × ((after.cache 0) ≡ caching.cache 0)
    × ((after.page 4) ≡ record zero_page { obj_nr = 1 })
free-not_reused_example = free-not_reused 0 4 0x4040 caching refl refl (omega arith)
