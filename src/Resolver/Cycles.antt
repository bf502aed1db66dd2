-- ===== src/Resolver/Cycles.antt =====
-- Documents that refer to themselves.
use fastgeoapi.Base.{ℕ, zero, suc, String, ◌≡◌, ◌≢◌, Option, none, some, Result, ok, >>=-eq-ok}
use fastgeoapi.Json
use fastgeoapi.Json.{Value, arr, obj, Items, nil, cons, Fields}
use fastgeoapi.Resolver.Env.{Env, ResolverState}
use fastgeoapi.Resolver.Objects.{external_ref, regular, dict_kind, resolve_external_refs}
use fastgeoapi.Resolver.Spec.{
  target, expand_items, expand_fields, expand, expand-external, expand-regular,
}
use fastgeoapi.Resolver.Expansion.{expand_fields-get}
use fastgeoapi.Resolver.Transparent.{resolve_external_refs_uncached}

pub data IsItem (v : Value) : Items → Type 0 where
  first : {vs : Items} → IsItem v (cons v vs)
  later : {w : Value} {vs : Items} → IsItem v vs → IsItem v (cons w vs)

-- Resolving the first value, at its base URL, resolves the second one at its base URL.
pub data Leads (env : Env) (base_url : Option String) : Value → Option String → Value → Type 0 where
  by_ref :
      (fs : Fields) (ref url : String) (v : Value)
      → dict_kind fs ≡ external_ref ref
      → target env ref base_url ≡ ok (v, url)
      → Leads env base_url (obj fs) (some url) v
  by_entry :
      (fs : Fields) (k : String) (v : Value)
      → dict_kind fs ≡ regular
      → Json.get k fs ≡ some v
      → Leads env base_url (obj fs) base_url v
  by_item : (vs : Items) (v : Value) → IsItem v vs → Leads env base_url (arr vs) base_url v

expand_items-IsItem :
    (f : Value → Result Value) {v : Value} {vs : Items} (ws : Items)
    → IsItem v vs
    → expand_items f vs ≡ ok ws
    → (w : Value) × (f v ≡ ok w)
unfolding expand_items
expand_items-IsItem f {v} ws first h = let (w, fits, rest) = >>=-eq-ok (f v) _ h in (w, fits)
expand_items-IsItem f ws (later {w} {vs} i) h =
    let (w', fits, h') = >>=-eq-ok (f w) _ h in
    let (vs', rest, done) = >>=-eq-ok (expand_items f vs) _ h' in expand_items-IsItem f vs' i rest

Leads-expand :
    (env : Env) (frames : ℕ) {base_url base_url' : Option String} {v v' : Value} (w : Value)
    → Leads env base_url v base_url' v'
    → expand env (suc frames) base_url v ≡ ok w
    → (w' : Value) × (expand env frames base_url' v' ≡ ok w')
unfolding expand
Leads-expand env n {base_url} w (by_ref fs ref url v kind found) h =
    (w, rw (expand-external env n base_url fs kind, found) at h)
Leads-expand env n {base_url} w (by_entry fs k v kind e) h =
    let (gs, inner, done) =
      >>=-eq-ok (expand_fields (expand env n base_url) fs) _
        (rw (expand-regular env n base_url fs kind) at h) in
    let (w', fits, found) = expand_fields-get (expand env n base_url) k fs gs inner e in (w', fits)
Leads-expand env n {base_url} w (by_item vs v i) h =
    let (ws, inner, done) = >>=-eq-ok (expand_items (expand env n base_url) vs) _ h in
    expand_items-IsItem (expand env n base_url) ws i inner

-- A set of values, each of which leads to one of the set.
pub record IsTrap (env : Env) (C : Option String → Value → Type 0) : Type 0 where
  pub onwards :
      (base_url : Option String) (v : Value)
      → C base_url v
      → (base_url' : Option String) × (v' : Value) × Leads env base_url v base_url' v'
        × C base_url' v'

trapped :
    (env : Env) (C : Option String → Value → Type 0)
    → IsTrap env C
    → (frames : ℕ) (base_url : Option String) (v w : Value) → C base_url v
    → expand env frames base_url v ≢ ok w
unfolding expand
trapped env C trap zero base_url v w c h = cc
trapped env C trap (suc n) base_url v w c h =
    let (base_url', v', leads, c') = trap.onwards base_url v c in
    let (w', h') = Leads-expand env n w leads h in trapped env C trap n base_url' v' w' c' h'

-- A specification that leads into a cycle of references, directly or through dicts, lists and
-- other documents, is resolved at no recursion limit: the run without a cache directory raises.
pub resolve_external_refs_cycle :
    (env : Env) (C : Option String → Value → Type 0) (ttl frames : ℕ) (spec w : Value)
    (s : ResolverState)
    → IsTrap env C
    → C none spec
    → (resolve_external_refs env none ttl frames spec s).0 ≢ ok w
resolve_external_refs_cycle env C ttl frames spec w s trap c h =
    trapped env C trap frames none spec w c
      (rw (resolve_external_refs_uncached env ttl frames spec s) at h)
