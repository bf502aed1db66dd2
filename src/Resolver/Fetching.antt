-- ===== src/Resolver/Fetching.antt =====
-- What the resolver asks of the network.
use fastgeoapi.Base.{
  ℕ, String, ◌≡◌, ◌≢◌, refl, Option, none, some, List, [], ◌∷◌, Result, ok, err, arith, inl, inr,
  eq_iff, Result-cases, All, value_error,
}
use fastgeoapi.Base.Dict
use fastgeoapi.Base.Exec.{pure, ◌>>=◌, ◌>>◌}
use fastgeoapi.Base.Exec.Rules.{
  Ensures, Holds, Ensures-pure, Ensures-lift, Ensures-bind, Ensures-then,
}
use fastgeoapi.Json.{Value}
use fastgeoapi.Resolver.Env.{
  Env, CacheFile, unreadable, undecodable, contents, ResolverState, Resolver, read_clock,
  WriteOutcome, written, refused, truncated,
}
use fastgeoapi.Resolver.Cache.{
  timestamp_of, get_cache_path, download, fetch_remote_document, remember, put_file, store_file,
  read_loaded, write_to_cache, read_entry, read_file, read_from_cache, fetch_and_cache, after_disk,
  after_memory, get_document,
}

abbrev pub AllDistinct : List String → Type 0
AllDistinct [] = Unit
AllDistinct (u ∷ us) = All (λ v. v ≢ u) us × AllDistinct us

-- No URL was fetched twice, and the document of each fetched URL is in the memory.
pub record IsOnce (s : ResolverState) : Type 0 where
  pub distinct : AllDistinct s.fetched
  pub remembered : All (λ u. Dict.get u s.memory ≢ none) s.fetched

-- What is left of it after an exception.
abbrev pub WasOnce : ResolverState → Type 0
WasOnce s = AllDistinct s.fetched

fresh :
    (url : String) (memory : Dict.Dict Value) (us : List String)
    → Dict.get url memory ≡ none
    → All (λ u. Dict.get u memory ≢ none) us
    → All (λ v. v ≢ url) us
fresh url memory [] e h = tt
fresh url memory (u ∷ us) e (p, h) = (λ same. p (rw same e), fresh url memory us e h)

remembered_put :
    (url : String) (doc : Value) (memory : Dict.Dict Value) (us : List String)
    → All (λ u. Dict.get u memory ≢ none) us
    → All (λ u. Dict.get u (Dict.put url doc memory) ≢ none) us
remembered_put url doc memory [] h = tt
remembered_put url doc memory (u ∷ us) (p, h) = (
  λ e. ground (arith, Dict.get-put url u doc memory, eq_iff url u),
  remembered_put url doc memory us h,
)

remember-IsOnce : (url : String) (doc : Value) → Ensures IsOnce WasOnce (remember url doc)
unfolding remember
remember-IsOnce url doc = record {
  ends = λ s h. record {
    distinct = h.distinct;
    remembered = remembered_put url doc s.memory s.fetched h.remembered;
  };
}

module _ (env : Env) where
  read_clock-IsOnce : Ensures IsOnce WasOnce (read_clock env)
  unfolding read_clock
  read_clock-IsOnce = record {
    ends = λ s h. record { distinct = h.distinct; remembered = h.remembered };
  }

  put_file-IsOnce : (path content : String) → Ensures IsOnce WasOnce (put_file path content)
  unfolding put_file
  put_file-IsOnce path content = record {
    ends = λ s h. record { distinct = h.distinct; remembered = h.remembered };
  }

  store_file-IsOnce :
      (path : String) (v : Value) (outcome : WriteOutcome)
      → Ensures IsOnce WasOnce (store_file env path v outcome)
  unfolding store_file
  store_file-IsOnce path v written =
      Ensures-then _ _ (put_file-IsOnce path (env.json_dump v).0)
        (Ensures-lift (env.json_dump v).1 (λ s h. h.distinct))
  store_file-IsOnce path v refused = Ensures-pure tt
  store_file-IsOnce path v (truncated part) = put_file-IsOnce path part

  write_to_cache-IsOnce :
      (url : String) (doc : Value) (cache_dir : String)
      → Ensures IsOnce WasOnce (write_to_cache env url doc cache_dir)
  unfolding write_to_cache ◌>>◌
  write_to_cache-IsOnce url doc cache_dir =
      Ensures-bind _ _ (Ensures-lift (env.mkdir cache_dir) (λ s h. h.distinct))
        λ _. Ensures-bind _ _ read_clock-IsOnce λ now. store_file-IsOnce _ _ _

  read_loaded-IsOnce :
      (ttl : ℕ) (loaded : Result Value) → Ensures IsOnce WasOnce (read_loaded env ttl loaded)
  unfolding read_loaded read_entry
  read_loaded-IsOnce ttl (ok v) =
      Ensures-bind _ _ (Ensures-lift _ (λ s h. h.distinct))
        λ timestamp. Ensures-bind _ _ read_clock-IsOnce λ now. Ensures-pure _
  read_loaded-IsOnce ttl (err e) = Ensures-lift _ (λ s h. h.distinct)

  read_file-IsOnce :
      (ttl : ℕ) (file : Option CacheFile) → Ensures IsOnce WasOnce (read_file env ttl file)
  unfolding read_file
  read_file-IsOnce ttl none = Ensures-pure none
  read_file-IsOnce ttl (some unreadable) = Ensures-pure none
  read_file-IsOnce ttl (some undecodable) = Ensures-lift (err value_error) (λ s h. h.distinct)
  read_file-IsOnce ttl (some (contents content)) = read_loaded-IsOnce ttl (env.json_loads content)

  -- A document that is not in the memory is fetched and remembered.
  abbrev Starts : String → Resolver Value → Type 0
  Starts url m =
      (s : ResolverState)
      → IsOnce s
      → Dict.get url s.memory ≡ none
      → Holds IsOnce WasOnce (m s).0 (m s).1

  fetched-IsOnce :
      (url : String) (s : ResolverState) (doc : Value)
      → IsOnce s
      → Dict.get url s.memory ≡ none
      → IsOnce (remember url doc (record s { fetched = url ∷ s.fetched })).1
  unfolding remember
  fetched-IsOnce url s doc h new = record {
    distinct = (fresh url s.memory s.fetched new h.remembered, h.distinct);
    remembered = (
      λ e. ground (arith, Dict.get-put_self url doc s.memory),
      remembered_put url doc s.memory s.fetched h.remembered,
    );
  }

  after_fetch :
      (url : String) (r : Result Value) (rest : Value → Resolver Value) (s : ResolverState)
      → IsOnce s
      → Dict.get url s.memory ≡ none
      → ((doc : Value) → Ensures IsOnce WasOnce (rest doc))
      → let run =
          ((λ _. (r, record s { fetched = url ∷ s.fetched })) >>= λ doc.
          remember url doc >> rest doc)
            s in
        Holds IsOnce WasOnce run.0 run.1
  unfolding ◌>>=◌ ◌>>◌ remember
  after_fetch url (err e) rest s h new each =
      (fresh url s.memory s.fetched new h.remembered, h.distinct)
  after_fetch url (ok doc) rest s h new each = (each doc).ends _ (fetched-IsOnce url s doc h new)

  fetch_and_cache-Starts :
      (url : String) (dir : Option String) → Starts url (fetch_and_cache env url dir)
  unfolding fetch_and_cache fetch_remote_document ◌>>=◌
  fetch_and_cache-Starts url none s h new =
      after_fetch url (download env url) pure s h new Ensures-pure
  fetch_and_cache-Starts url (some cache_dir) s h new =
      after_fetch url (download env url) (λ doc. write_to_cache env url doc cache_dir >> pure doc) s
        h new λ doc. Ensures-then _ _ (write_to_cache-IsOnce url doc cache_dir) (Ensures-pure doc)

  memory-read_loaded :
      (ttl : ℕ) (loaded : Result Value) (s : ResolverState)
      → (read_loaded env ttl loaded s).1.memory ≡ s.memory
  unfolding read_loaded read_entry ◌>>=◌ read_clock
  memory-read_loaded ttl (err e) s = refl
  memory-read_loaded ttl (ok v) s = elim (Result-cases (timestamp_of v)) [
    | inl (n, e) ↦ rw (e, ◌>>=◌)
    | inr (x, e) ↦ rw (e, ◌>>=◌)
  ]

  memory-read_file :
      (ttl : ℕ) (file : Option CacheFile) (s : ResolverState)
      → (read_file env ttl file s).1.memory ≡ s.memory
  unfolding read_file pure fastgeoapi.Base.Exec.lift
  memory-read_file ttl none s = refl
  memory-read_file ttl (some unreadable) s = refl
  memory-read_file ttl (some undecodable) s = refl
  memory-read_file ttl (some (contents content)) s =
      memory-read_loaded ttl (env.json_loads content) s

  after_disk-Starts :
      (url cache_dir : String) (found : Option Value)
      → Starts url (after_disk env url cache_dir found)
  unfolding after_disk ◌>>◌ ◌>>=◌
  after_disk-Starts url cache_dir none s h new = fetch_and_cache-Starts url (some cache_dir) s h new
  after_disk-Starts url cache_dir (some doc) s h new =
      (Ensures-then _ _ (remember-IsOnce url doc) (Ensures-pure doc)).ends s h

  after_read :
      (url cache_dir : String) (r : Result (Option Value)) (s : ResolverState)
      → Holds IsOnce WasOnce r s
      → Dict.get url s.memory ≡ none
      → let run = ((λ _. (r, s)) >>= after_disk env url cache_dir) s in
        Holds IsOnce WasOnce run.0 run.1
  unfolding ◌>>=◌
  after_read url cache_dir (ok found) s h new = after_disk-Starts url cache_dir found s h new
  after_read url cache_dir (err e) s h new = h

  after_memory-IsOnce :
      (url : String) (dir : Option String) (ttl : ℕ) (found : Option Value) (s : ResolverState)
      → Dict.get url s.memory ≡ found
      → IsOnce s
      → Holds IsOnce WasOnce
          (after_memory env url dir ttl found s).0
          (after_memory env url dir ttl found s).1
  unfolding after_memory read_from_cache ◌>>=◌ pure
  after_memory-IsOnce url dir ttl (some doc) s e h = h
  after_memory-IsOnce url none ttl none s e h = fetch_and_cache-Starts url none s h e
  after_memory-IsOnce url (some cache_dir) ttl none s e h =
      let file = Dict.get (get_cache_path env url cache_dir) s.disk in
      after_read url cache_dir (read_file env ttl file s).0 (read_file env ttl file s).1
        ((read_file-IsOnce ttl file).ends s h) (rw (memory-read_file ttl file s) e)

  pub get_document-IsOnce :
      (url : String) (dir : Option String) (ttl : ℕ)
      → Ensures IsOnce WasOnce (get_document env url dir ttl)
  unfolding get_document
  get_document-IsOnce url dir ttl = record {
    ends = λ s h. after_memory-IsOnce url dir ttl (Dict.get url s.memory) s refl h;
  }
