-- ===== src/Logging/Tests.antt =====
-- A stack with two frames of the logging module.
use fastgeoapi.Base.{
  ℕ, ◌+◌, ◌≤◌, ◌<◌, String, ◌≡◌, ◌⊎◌, true, List, [], ◌∷◌, ok, err, attribute_error, All, ◌==◌,
}
use fastgeoapi.Logging.{caller_depth}
use fastgeoapi.Logging.Sinks.{length, IsCalledFrom, caller_depth_bounds}

abbrev frames : List String
frames = "logging.py" ∷ "logging.py" ∷ "main.py" ∷ "uvicorn.py" ∷ []

caller_depth_bounds_example :
    ((depth : ℕ) × (caller_depth "logging.py" frames 2 ≡ ok depth)
      × IsCalledFrom "logging.py" frames depth
      × (2 ≤ depth)
      × (depth < 2 + length frames))
    ⊎ (All (λ f. (f == "logging.py") ≡ true) frames
        × (caller_depth "logging.py" frames 2 ≡ err attribute_error))
caller_depth_bounds_example = caller_depth_bounds "logging.py" frames
