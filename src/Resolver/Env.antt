-- ===== src/Resolver/Env.antt =====
-- What the resolver of app/utils/openapi_resolver.py reads and changes: the network, the clock and
-- the parsers are a parameter; the two caches and what was asked of the outside are the state.
use fastgeoapi.Base.{ℕ, ◌+◌, String, List, Result, ok}
use fastgeoapi.Base.Exec.{Exec}
use fastgeoapi.Base.Dict.{Dict}
use fastgeoapi.Json.{Value}

-- What the file system does with a cache file that is written: it takes all that `json.dump` puts
-- out; `open` fails with an OSError and leaves the file as it was; or the write fails with an
-- OSError and leaves a part of the text.
pub data WriteOutcome : Type 0 where
  written refused : WriteOutcome
  truncated : String → WriteOutcome

-- The services behind the resolver, fixed while it runs.
pub record Env : Type 0 where
  -- httpx.get(url), raise_for_status() and response.text
  pub http_get : String → Result String
  pub yaml_safe_load : String → Result Value
  pub json_loads : String → Result Value
  -- json.dump(value, f): what it has put into the file when it ends, and the exception it ends with
  pub json_dump : Value → String × Result (Unit {0})
  -- urllib.parse.urljoin(base, ref)
  pub urljoin : String → String → Result String
  -- hashlib.sha256(url.encode()).hexdigest()[:16]
  pub url_digest : String → String
  -- the n-th reading of time.time(), in seconds
  pub time : ℕ → ℕ
  -- cache_dir.mkdir(parents=True, exist_ok=True)
  pub mkdir : String → Result (Unit {0})
  pub write_outcome : String → WriteOutcome

-- A file of the disk cache: one that cannot be opened or read, one whose bytes are no text of the
-- encoding, or a text.
pub data CacheFile : Type 0 where
  unreadable undecodable : CacheFile
  contents : String → CacheFile

pub record ResolverState : Type 0 where
  -- document_cache
  pub memory : Dict Value
  -- the files below the cache directories, by path
  pub disk : Dict CacheFile
  -- how often the clock was read
  pub readings : ℕ
  -- the URLs given to httpx.get, the last one first
  pub fetched : List String

abbrev pub Resolver : Type 0 → Type 0
Resolver = Exec ResolverState

-- time.time()
unfoldable pub read_clock : Env → Resolver ℕ
read_clock env s = (ok (env.time s.readings), record s { readings = s.readings + 1 })
