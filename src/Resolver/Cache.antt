-- ===== src/Resolver/Cache.antt =====
-- The two caches of app/utils/openapi_resolver.py and the fetch behind them.
use fastgeoapi.Base.{
  ℕ, ◌+◌, String, ◌<>◌, Bool, true, false, ◌||◌, Option, none, some, ◌∷◌, Result, ok, err,
  Exception, type_error, attribute_error, value_error, decode_error, key_error, os_error, ltb,
  if◌then◌else◌,
}
use fastgeoapi.Base.Exec.{pure, lift, ◌>>=◌, ◌>>◌}
use fastgeoapi.Base.Dict
use fastgeoapi.Base.Errors
use fastgeoapi.Json
use fastgeoapi.Json.{Value, null, bool, num, str, arr, obj, end, field}
use fastgeoapi.Text.{ends_with}
use fastgeoapi.Resolver.Env.{
  WriteOutcome, written, refused, truncated, Env, CacheFile, unreadable, undecodable, contents,
  Resolver, read_clock,
}

-- A number of seconds, as an operand of `time.time() - timestamp`.
unfoldable pub seconds : Value → Result ℕ
seconds (num n) = ok n
seconds (bool true) = ok 1
seconds (bool false) = ok 0
seconds _ = err type_error

-- cached_data.get("timestamp", 0)
unfoldable pub timestamp_of : Value → Result ℕ
unfolding seconds
timestamp_of (obj fs) = elim (Json.get "timestamp" fs) [ none ↦ ok 0 | some v ↦ seconds v ]
timestamp_of _ = err attribute_error

unfoldable pub present : Option Value → Option Value
present (some null) = none
present found = found

-- cached_data.get("document"), where None stands for a miss
unfoldable pub document_of : Value → Option Value
unfolding present
document_of (obj fs) = present (Json.get "document" fs)
document_of _ = none

-- { "timestamp": …, "url": …, "document": … }
unfoldable pub cache_entry : ℕ → String → Value → Value
cache_entry now url document =
    obj (field "timestamp" (num now) (field "url" (str url) (field "document" document end)))

-- document_cache[url] = doc
unfoldable pub remember : String → Value → Resolver (Unit {0})
remember url doc s = (ok tt, record s { memory = Dict.put url doc s.memory })

unfoldable pub put_file : String → String → Resolver (Unit {0})
put_file cache_path content s =
    (ok tt, record s { disk = Dict.put cache_path (contents content) s.disk })

-- json.JSONDecodeError, KeyError and OSError
unfoldable pub is_read_error : Exception → Bool
is_read_error decode_error = true
is_read_error key_error = true
is_read_error os_error = true
is_read_error _ = false

module _ (env : Env) where
  unfoldable pub get_cache_path : String → String → String
  get_cache_path url cache_dir = cache_dir <> ("/" <> (env.url_digest url <> ".json"))

  -- The age test is `time.time() - timestamp > cache_ttl_seconds` without negative numbers.
  unfoldable pub read_entry : ℕ → Value → Resolver (Option Value)
  read_entry cache_ttl_seconds cached_data = do
    timestamp ← lift (timestamp_of cached_data)
    now ← read_clock env
    pure (if ltb (timestamp + cache_ttl_seconds) now then none else document_of cached_data)

  -- with what json.load returns or raises
  unfoldable pub read_loaded : ℕ → Result Value → Resolver (Option Value)
  unfolding read_entry
  read_loaded cache_ttl_seconds (ok cached_data) = read_entry cache_ttl_seconds cached_data
  read_loaded cache_ttl_seconds (err e) = lift (if is_read_error e then ok none else err e)

  -- A UnicodeDecodeError is a ValueError and is not caught.
  unfoldable pub read_file : ℕ → Option CacheFile → Resolver (Option Value)
  unfolding read_loaded
  read_file cache_ttl_seconds none = pure none
  read_file cache_ttl_seconds (some unreadable) = pure none
  read_file cache_ttl_seconds (some undecodable) = lift (err value_error)
  read_file cache_ttl_seconds (some (contents content)) =
      read_loaded cache_ttl_seconds (env.json_loads content)

  unfoldable pub read_from_cache : String → String → ℕ → Resolver (Option Value)
  unfolding read_file get_cache_path
  read_from_cache url cache_dir cache_ttl_seconds s =
      read_file cache_ttl_seconds (Dict.get (get_cache_path url cache_dir) s.disk) s

  -- An exception of `json.dump` leaves what it has put out so far.
  unfoldable pub store_file : String → Value → WriteOutcome → Resolver (Unit {0})
  unfolding put_file
  store_file cache_path cached_data written = do
    put_file cache_path (env.json_dump cached_data).0
    lift (env.json_dump cached_data).1
  store_file cache_path cached_data refused = pure tt
  store_file cache_path cached_data (truncated part) = put_file cache_path part

  -- The handler of OSError covers the write and not `mkdir`.
  unfoldable pub write_to_cache : String → Value → String → Resolver (Unit {0})
  unfolding get_cache_path store_file cache_entry
  write_to_cache url document cache_dir = do
    lift (env.mkdir cache_dir)
    now ← read_clock env
    store_file (get_cache_path url cache_dir) (cache_entry now url document)
        (env.write_outcome (get_cache_path url cache_dir))

  -- the parser that the suffix of the URL selects
  unfoldable pub parse_document : String → String → Result Value
  parse_document url text =
      if ends_with url ".yaml" || ends_with url ".yml"
      then env.yaml_safe_load text
      else env.json_loads text

  -- What a URL holds on the network.
  unfoldable pub download : String → Result Value
  unfolding parse_document
  download url = Errors.◌>>=◌ (env.http_get url) (parse_document url)

  unfoldable pub fetch_remote_document : String → Resolver Value
  unfolding download
  fetch_remote_document url s = (download url, record s { fetched = url ∷ s.fetched })

  unfoldable pub fetch_and_cache : String → Option String → Resolver Value
  unfolding fetch_remote_document remember write_to_cache
  fetch_and_cache url none = do doc ← fetch_remote_document url; remember url doc; pure doc
  fetch_and_cache url (some cache_dir) = do
    doc ← fetch_remote_document url
    remember url doc
    write_to_cache url doc cache_dir
    pure doc

  -- with the result of the look-up on disk
  unfoldable pub after_disk : String → String → Option Value → Resolver Value
  unfolding remember fetch_and_cache
  after_disk url cache_dir none = fetch_and_cache url (some cache_dir)
  after_disk url cache_dir (some cached_doc) = do remember url cached_doc; pure cached_doc

  unfoldable pub after_memory : String → Option String → ℕ → Option Value → Resolver Value
  unfolding after_disk
  after_memory url disk_cache_dir cache_ttl_seconds (some doc) = pure doc
  after_memory url none cache_ttl_seconds none = fetch_and_cache url none
  after_memory url (some cache_dir) cache_ttl_seconds none = do
    cached_doc ← read_from_cache url cache_dir cache_ttl_seconds
    after_disk url cache_dir cached_doc

  unfoldable pub get_document : String → Option String → ℕ → Resolver Value
  unfolding after_memory
  get_document url disk_cache_dir cache_ttl_seconds s =
      after_memory url disk_cache_dir cache_ttl_seconds (Dict.get url s.memory) s
