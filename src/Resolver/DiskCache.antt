-- ===== src/Resolver/DiskCache.antt =====
-- A document that is written to the disk cache is read back until its lifetime is over.
use fastgeoapi.Base.{ℕ, ◌+◌, String, ◌≡◌, refl, none, some, ok, ltb, if◌then◌else◌}
use fastgeoapi.Base.Dict
use fastgeoapi.Base.Exec.{◌>>=◌, ◌>>◌}
use fastgeoapi.Json
use fastgeoapi.Json.{Value}
use fastgeoapi.Resolver.Env.{Env, ResolverState, written, read_clock, contents}
use fastgeoapi.Resolver.Cache.{
  present, get_cache_path, cache_entry, timestamp_of, document_of, put_file, store_file,
  read_loaded, read_file, read_from_cache, write_to_cache,
}

-- `json.dump` puts out all of `v`, and `json.load` gives it back. Not every value has such a text:
-- a dict may come back with other keys, and `json.dump` may raise.
pub record HasText (env : Env) (v : Value) : Type 0 where
  pub content : String
  pub dumped : env.json_dump v ≡ (content, ok tt)
  pub loaded : env.json_loads content ≡ ok v

read_entry_text :
    (env : Env) (ttl now : ℕ) (url : String) (doc : Value) (s : ResolverState)
    → (read_loaded env ttl (ok (cache_entry now url doc)) s).0
      ≡ ok (if ltb (now + ttl) (env.time s.readings) then none else present (some doc))
unfolding read_loaded cache_entry timestamp_of document_of Json.get ◌>>=◌ read_clock
read_entry_text env ttl now url doc s = refl

-- Where the directory can be made, the file system takes the file, and the entry with the time, the
-- URL and the document has a text that `json.load` reads back as the same value, reading the URL
-- straight after writing finds the document, unless the clock has advanced by more than the
-- lifetime in between; a null document is not found.
pub read_from_cache-write_to_cache :
    (env : Env) (url : String) (doc : Value) (cache_dir : String) (ttl : ℕ) (s : ResolverState)
    → env.mkdir cache_dir ≡ ok tt
    → env.write_outcome (get_cache_path env url cache_dir) ≡ written
    → HasText env (cache_entry (env.time s.readings) url doc)
    → (read_from_cache env url cache_dir ttl (write_to_cache env url doc cache_dir s).1).0
      ≡ ok (
          if ltb (env.time s.readings + ttl) (env.time (s.readings + 1))
          then none
          else present (some doc))
unfolding read_from_cache write_to_cache put_file read_file ◌>>=◌ ◌>>◌ read_clock
read_from_cache-write_to_cache env url doc cache_dir ttl s made done h =
    rw (made, ◌>>=◌)
      (rw (done, store_file, h.dumped)
        (rw (Dict.get-put_self (get_cache_path env url cache_dir) (contents h.content) s.disk)
          (rw h.loaded (read_entry_text env ttl (env.time s.readings) url doc _))))
