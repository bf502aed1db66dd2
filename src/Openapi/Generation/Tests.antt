-- ===== src/Openapi/Generation/Tests.antt =====
-- A document of pygeoapi with one section, generated by codecs for such documents.
use fastgeoapi.Base.{String, Result, ok, err, type_error}
use fastgeoapi.Json
use fastgeoapi.Json.{Value, null, bool, num, str, obj, arr, field, end}
use fastgeoapi.Openapi.Generation.{Codec}

-- the name of the section, which is empty
dump_section : Value → Result String
dump_section (obj (field k null end)) = ok k
dump_section _ = err type_error

abbrev sections : Codec
sections = record { load = λ text. ok (obj (field text null end)); dump = dump_section }

abbrev upstream : String → String → Result String
upstream cfg_file output_format = ok "info"
