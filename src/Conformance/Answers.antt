-- ===== src/Conformance/Answers.antt =====
-- What a client of the conformance page gets.
use fastgeoapi.Base.Dict
use fastgeoapi.Base.Dict.{Dict}
use fastgeoapi.Conformance.{Pygeoapi}
