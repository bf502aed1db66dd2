-- ===== src/App/Generator/Failures.antt =====
-- What the generator leaves behind.
use fastgeoapi.Base.{
  String, ◌≡◌, ◌⊎◌, inl, inr, refl, false, ◌||◌, Option, none, some, Result, ok, err, Exception,
  arith, Bool-cases, ◌==◌,
}
use fastgeoapi.Base.Dict
use fastgeoapi.Base.Dict.{Dict, get-put_self}
use fastgeoapi.App.Generator.{
  Paths, Generation, write_file, generate_file, ensure_openapi_file_exists,
}

write_file-content :
    (path other : String) (generated : Result String) (files : Dict String)
    → (write_file path generated files).0 ≡ ok other
    → (content : String) × (generated ≡ ok content)
      × (path ≡ other)
      × (Dict.get path (write_file path generated files).1 ≡ some content)
unfolding write_file
write_file-content path other (ok content) files h =
    (content, refl, ground arith, get-put_self path content files)
write_file-content path other (err e) files h = absurd (ground arith)

generate_file-content :
    (generation : Generation) (cfg : Paths) (found : Option String) (files : Dict String)
    (path : String)
    → Dict.get (generation.in_cwd cfg.pygeoapi_openapi) files ≡ found
    → (generate_file generation cfg found files).0 ≡ ok path
    → (content : String) × (generation.in_cwd cfg.pygeoapi_openapi ≡ path)
      × (Dict.get
            (generation.in_cwd cfg.pygeoapi_openapi)
            (generate_file generation cfg found files).1
          ≡ some content)
      × ((found ≡ some content)
          ⊎ ((found ≡ none)
              × (generation.generate (generation.in_cwd cfg.pygeoapi_config) ≡ ok content)))
unfolding generate_file
generate_file-content generation cfg (some content) files path there h =
    (content, ground arith, there, inl refl)
generate_file-content generation cfg none files path there h =
    let at = generation.in_cwd cfg.pygeoapi_openapi in
    let (content, generated, same, stored) =
      write_file-content at path (generation.generate (generation.in_cwd cfg.pygeoapi_config))
        (Dict.put at "" files) h in
    (content, same, stored, inr (refl, generated))

-- If a path is returned, it is that of the document, and a file is there: with the content that it
-- had, or, where there was none, with what was generated from the configuration.
pub ensure_openapi_file_exists-content :
    (generation : Generation) (cfg : Paths) (files : Dict String) (path : String)
    → (ensure_openapi_file_exists generation cfg files).0 ≡ ok path
    → (content : String) × (generation.in_cwd cfg.pygeoapi_openapi ≡ path)
      × (Dict.get
            (generation.in_cwd cfg.pygeoapi_openapi)
            (ensure_openapi_file_exists generation cfg files).1
          ≡ some content)
      × ((Dict.get (generation.in_cwd cfg.pygeoapi_openapi) files ≡ some content)
          ⊎ ((Dict.get (generation.in_cwd cfg.pygeoapi_openapi) files ≡ none)
              × (generation.generate (generation.in_cwd cfg.pygeoapi_config) ≡ ok content)))
unfolding ensure_openapi_file_exists
ensure_openapi_file_exists-content generation cfg files path h =
    elim (Bool-cases (cfg.pygeoapi_config == "" || cfg.pygeoapi_openapi == "")) [
      | inl missing ↦ absurd (ground arith)
      | inr given ↦ rw given (
          generate_file-content generation cfg
            (Dict.get (generation.in_cwd cfg.pygeoapi_openapi) files) files path refl
            (rw given at h))
    ]

-- Where there is no file and the generation fails, the exception leaves an empty file behind, and
-- the next call takes it for the document: it returns the path and changes nothing, even where
-- the generation would succeed by then.
pub ensure_openapi_file_exists_after_failure :
    (generation later : Generation) (cfg : Paths) (files : Dict String) (e : Exception)
    → (cfg.pygeoapi_config == "" || cfg.pygeoapi_openapi == "") ≡ false
    → later.in_cwd ≡ generation.in_cwd
    → Dict.get (generation.in_cwd cfg.pygeoapi_openapi) files ≡ none
    → generation.generate (generation.in_cwd cfg.pygeoapi_config) ≡ err e
    → let left = Dict.put (generation.in_cwd cfg.pygeoapi_openapi) "" files in
      (ensure_openapi_file_exists generation cfg files ≡ (err e, left))
      × (ensure_openapi_file_exists later cfg left
          ≡ (ok (generation.in_cwd cfg.pygeoapi_openapi), left))
unfolding ensure_openapi_file_exists generate_file write_file
ensure_openapi_file_exists_after_failure generation later cfg files e given same absent fails = (
  rw (given, absent, fails) refl,
  rw (given, same, get-put_self (generation.in_cwd cfg.pygeoapi_openapi) "" files) refl,
)
