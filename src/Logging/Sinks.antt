-- ===== src/Logging/Sinks.antt =====
-- What repeated configuration leaves, and how far the interceptor walks.
use fastgeoapi.Base.{
  ℕ, suc, ◌+◌, ◌≤◌, ◌<◌, String, ◌≡◌, ◌⊎◌, inl, inr, refl, ◌∙◌, true, false, List, [], ◌∷◌, ◌++◌,
  ok, err, attribute_error, arith, All, Bool-cases, ap, ◌==◌,
}
use fastgeoapi.Base.Dict
use fastgeoapi.Base.Dict.{Dict, get-put_self, get-put}
use fastgeoapi.Logging.{
  LoggingBase, Handler, intercept_handler, LoggingState, basic_config, intercepted,
  customize_logging, caller_depth,
}

-- The number of frames.
abbrev pub length : List String → ℕ
length [] = 0
length (f ∷ fs) = suc (length fs)

-- The frames of the logging module, and the first that is not one of them.
pub record IsCalledFrom (logging_file : String) (frames : List String) (depth : ℕ) : Type 0 where
  pub logging_frames : List String
  pub caller : String
  pub outer : List String
  pub split : frames ≡ logging_frames ++ caller ∷ outer
  pub inside : All (λ f. (f == logging_file) ≡ true) logging_frames
  pub outside : (caller == logging_file) ≡ false
  pub counted : depth ≡ 2 + length logging_frames

caller_depth-found :
    (logging_file : String) (before : List String) (caller : String) (outer : List String)
    (depth : ℕ)
    → All (λ f. (f == logging_file) ≡ true) before
    → (caller == logging_file) ≡ false
    → caller_depth logging_file (before ++ caller ∷ outer) depth ≡ ok (depth + length before)
unfolding caller_depth
caller_depth-found logging_file [] caller outer depth h k = rw k (ap ok (omega arith))
caller_depth-found logging_file (f ∷ before) caller outer depth (i, h) k =
    rw i (caller_depth-found logging_file before caller outer (depth + 1) h k ∙ ap ok (omega arith))

caller_depth-cases :
    (logging_file : String) (frames : List String)
    → All (λ f. (f == logging_file) ≡ true) frames
      ⊎ ((before : List String) × (caller : String) × (outer : List String) × (frames
            ≡ before ++ caller ∷ outer)
          × All (λ f. (f == logging_file) ≡ true) before
          × ((caller == logging_file) ≡ false))
caller_depth-cases logging_file [] = inl tt
caller_depth-cases logging_file (f ∷ frames) = elim (Bool-cases (f == logging_file)) [
  | inr outside ↦ inr ([], f, frames, refl, tt, outside)
  | inl inside ↦ elim (caller_depth-cases logging_file frames) [
    | inl all ↦ inl (inside, all)
    | inr (before, caller, outer, e, all, outside) ↦
        inr (f ∷ before, caller, outer, ap (λ l. f ∷ l) e, (inside, all), outside)
  ]
]

caller_depth-none :
    (logging_file : String) (frames : List String) (depth : ℕ)
    → All (λ f. (f == logging_file) ≡ true) frames
    → caller_depth logging_file frames depth ≡ err attribute_error
unfolding caller_depth
caller_depth-none logging_file [] depth h = refl
caller_depth-none logging_file (f ∷ frames) depth (i, h) =
    rw i (caller_depth-none logging_file frames (depth + 1) h)

length-lt :
    (before : List String) (caller : String) (outer : List String)
    → 2 + length before < 2 + length (before ++ caller ∷ outer)
length-lt [] caller outer = omega arith
length-lt (f ∷ before) caller outer = omega (arith, length-lt before caller outer)

-- The walk ends at the first frame outside the logging module, at a depth of two and the number of
-- frames before it, which is within the stack and two more; where every frame is of the logging
-- module it raises AttributeError.
pub caller_depth_bounds :
    (logging_file : String) (frames : List String)
    → ((depth : ℕ) × (caller_depth logging_file frames 2 ≡ ok depth)
        × IsCalledFrom logging_file frames depth
        × (2 ≤ depth)
        × (depth < 2 + length frames))
      ⊎ (All (λ f. (f == logging_file) ≡ true) frames
          × (caller_depth logging_file frames 2 ≡ err attribute_error))
caller_depth_bounds logging_file frames = elim (caller_depth-cases logging_file frames) [
  | inl all ↦ inr (all, caller_depth-none logging_file frames 2 all)
  | inr (before, caller, outer, e, all, outside) ↦ inl (
    2 + length before,
    rw e (caller_depth-found logging_file before caller outer 2 all outside),
    record {
      logging_frames = before;
      caller = caller;
      outer = outer;
      split = e;
      inside = all;
      outside = outside;
      counted = refl;
    },
    omega arith,
    rw e (length-lt before caller outer),
  )
]

basic_config_twice : (hs : List Handler) → basic_config (basic_config hs) ≡ basic_config hs
unfolding basic_config
basic_config_twice [] = refl
basic_config_twice (h ∷ hs) = refl

-- However often and with whatever settings logging was configured before, the last configuration
-- decides: the sinks, the handlers of the root logger and those of the named loggers are as after
-- it alone.
pub customize_logging-last :
    (upper : String → String) (config before : LoggingBase) (s : LoggingState)
    → customize_logging upper config (customize_logging upper before s)
      ≡ customize_logging upper config s
unfolding customize_logging
customize_logging-last upper config before s =
    rw
      (
        basic_config_twice s.root_handlers,
        Dict.put_all_twice intercepted (intercept_handler ∷ []) s.handlers
            (refl, (refl, (refl, (refl, tt)))),
      )
      refl
