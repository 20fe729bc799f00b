-- ===== src/Home/Cache/Laws.antt =====
-- What a mark of pkg/home/cache.go does, in memory and in the file.
use envd.Base.{String, Bool, ◌≡◌, refl, arith, str_eq, if◌then◌else◌}
use envd.Base.Dict.{put, get-put}
use envd.Home.File.{DumpIo, written, create_fails, encode_fails}
use envd.Home.State.{Manager}
use envd.Home.Cache.{dump_cache_status, mark_cache, cached}

cache_map-mark_cache :
    (key : String) (v : Bool) (io : DumpIo) (m : Manager)
    → (mark_cache key v io m).0.cache_map ≡ put m.cache_map key v
unfolding mark_cache dump_cache_status
cache_map-mark_cache key v written m = refl
cache_map-mark_cache key v create_fails m = refl
cache_map-mark_cache key v encode_fails m = refl

-- After `MarkCache(key, v)`, `Cached` returns `v` for that key and what it returned before for every
-- other, whatever the system answers to the dump.
pub cached-mark_cache :
    (key j : String) (v : Bool) (io : DumpIo) (m : Manager)
    → cached j (mark_cache key v io m).0 ≡ (if str_eq key j then v else cached j m)
unfolding cached
cached-mark_cache key j v io m =
    rw cache_map-mark_cache (ground (arith, get-put m.cache_map key j v))
