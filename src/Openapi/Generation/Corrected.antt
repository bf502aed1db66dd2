-- ===== src/Openapi/Generation/Corrected.antt =====
-- What a reader of the generated document finds.
use fastgeoapi.Base.{String, ◌≡◌, ok}
use fastgeoapi.Json.{Value}
use fastgeoapi.Openapi.Generation.{Codec}

-- What was written is read back.
abbrev pub ReadsBack : Codec → Type 0
ReadsBack codec = (v : Value) (text : String) → codec.dump v ≡ ok text → codec.load text ≡ ok v
