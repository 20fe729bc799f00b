-- ===== src/Home/Cache.antt =====
-- pkg/home/cache.go
pub mod Laws
use envd.Base.{String, Bool, false, Option, none, some}
use envd.Base.Dict.{Dict, get, put, put_all}
use envd.Home.File.{Error, DumpIo, InitIo, dump, init_file}
use envd.Home.State.{Manager}

unfoldable pub dump_cache_status : DumpIo → Manager → Manager × Option Error
unfolding dump
dump_cache_status io m =
    let (f, e) = dump io m.cache_map m.cache_status_file in (record m { cache_status_file = f }, e)

unfoldable pub mark_cache : String → Bool → DumpIo → Manager → Manager × Option Error
unfolding dump_cache_status
mark_cache key v io m = dump_cache_status io (record m { cache_map = put m.cache_map key v })

abbrev or_false : Option Bool → Bool
or_false none = false
or_false (some b) = b

unfoldable pub cached : String → Manager → Bool
cached key m = or_false (get m.cache_map key)

unfoldable pub init_cache : InitIo → Manager → Manager × Option Error
unfolding init_file put_all
init_cache io m =
    let (f, d, e) = init_file put_all io m.cache_map m.cache_status_file in
    (record m { cache_map = d; cache_status_file = f }, e)
