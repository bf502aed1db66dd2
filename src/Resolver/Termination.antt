-- ===== src/Resolver/Termination.antt =====
-- Which specifications the resolver comes to an end on, and within which recursion limits.
use fastgeoapi.Base.{ℕ, [], ◌≤◌, ◌≡◌, ◌↔◌, ◌∙◌, none, ok, arith}
use fastgeoapi.Json.{Value}
use fastgeoapi.Resolver.Env.{Env, ResolverState}
use fastgeoapi.Resolver.Objects.{resolve_external_refs}
use fastgeoapi.Resolver.Spec.{Expands}
use fastgeoapi.Resolver.Expansion.{expand_mono, expand_iff}
use fastgeoapi.Resolver.Transparent.{resolve_external_refs_uncached}

-- Without a cache directory, from some recursion limit on every run returns `w`, whatever state it
-- starts from, exactly where the specification stands for `w` by finitely many steps of the relation
-- `Expands`, which has no limit.
pub resolve_external_refs_iff :
    (env : Env) (ttl : ℕ) (spec w : Value)
    → ((enough : ℕ) × ((frames : ℕ) (s : ResolverState)
          → enough ≤ frames
          → (resolve_external_refs env none ttl frames spec s).0 ≡ ok w))
      ↔ Expands env none spec w
resolve_external_refs_iff env ttl spec w = (
  λ (enough, returns).
      let start : ResolverState = record { memory = []; disk = []; readings = 0; fetched = [] } in
      (expand_iff env none spec w).0 (
        enough,
        rw (resolve_external_refs_uncached env ttl enough spec start) at
            (returns enough start (omega arith)),
      ),
  λ expands.
      let (enough, done) = (expand_iff env none spec w).1 expands in
      (
        enough,
        λ frames s le.
            resolve_external_refs_uncached env ttl frames spec s
            ∙ expand_mono env enough frames le none spec w done,
      ),
)
