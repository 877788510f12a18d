-- ===== src/Orchestrator/Collected.antt =====
-- The dependencies that the sources of a run declare (orchestrator.workflow.ts).
use reputo.Prelude.{
  ◌≡◌, ◌⊎◌, refl, ap, String, Bool, true, false, ◌||◌, List, [], ◌∷◌, ◌++◌, any, Bool-cases, inl,
  inr, arith,
}
use reputo.Tokens.Transfers.{has}
use reputo.Tokens.Firsts.{firsts, distinct, keys_self, firsts-distinct, firsts-has}
use reputo.Orchestrator.Model.{Preset, DependencySource}
use reputo.Orchestrator.Targets.{
  collect_dependency_keys, declared_dependencies, find_dependency_preset,
}

abbrev pub declares : String → DependencySource → Bool
declares k source = has source.definition.dependencies k

has-append : (xs ys : List String) (k : String) → has (xs ++ ys) k ≡ (has xs k || has ys k)
has-append [] ys k = refl
has-append (x ∷ xs) ys k = ground (arith, has-append xs ys k)

declared-has :
    (sources : List DependencySource) (k : String)
    → has (declared_dependencies sources) k ≡ any (declares k) sources
declared-has [] k = refl
declared-has (source ∷ sources) k = ground (
  arith,
  has-append source.definition.dependencies (declared_dependencies sources) k,
  declared-has sources k,
)

preset_found :
    (first : Preset) (sources : List DependencySource) (k : String)
    → any (declares k) sources ≡ true
    → (before : List DependencySource) × (source : DependencySource) × (after : List
        DependencySource)
      × (sources ≡ before ++ source ∷ after)
      × (any (declares k) before ≡ false)
      × (declares k source ≡ true)
      × (find_dependency_preset first sources k ≡ source.preset)
unfolding find_dependency_preset
preset_found first [] k h = ground (arith, h)
preset_found first (source ∷ sources) k h = elim (Bool-cases (declares k source)) [
  | inl d ↦ ([], source, sources, refl, refl, d, ground (arith, d))
  | inr n ↦
      let (before, found, after, e, none_before, d, p) =
        preset_found first sources k (ground (arith, h, n)) in
      (
        source ∷ before,
        found,
        after,
        ap (λ rest. source ∷ rest) e,
        ground (arith, n, none_before),
        d,
        ground (arith, n, p),
      )
]

-- The dependencies of a combined run are collected once each: no key is collected twice, and a key is
-- collected exactly when some source declares it. The preset that configures the fetch of a declared
-- key is that of the first source that declares it.
pub collect_dependency_keys_lem :
    (first : Preset) (sources : List DependencySource) (k : String)
    → (distinct (collect_dependency_keys sources) ≡ true)
      × (has (collect_dependency_keys sources) k ≡ any (declares k) sources)
      × ((any (declares k) sources ≡ false)
          ⊎ ((before : List DependencySource) × (source : DependencySource) × (after : List
                DependencySource)
              × (sources ≡ before ++ source ∷ after)
              × (any (declares k) before ≡ false)
              × (declares k source ≡ true)
              × (find_dependency_preset first sources k ≡ source.preset)))
unfolding collect_dependency_keys
collect_dependency_keys_lem first sources k =
    let declared = declared_dependencies sources in
    let found = firsts (λ key. key) [] declared in
    let once = firsts-distinct (λ key. key) [] declared in
    let every = firsts-has (λ key. key) [] declared k in
    (
      ground (arith, once, keys_self found),
      ground (arith, every, keys_self found, keys_self declared, declared-has sources k),
      elim (Bool-cases (any (declares k) sources)) [
        | inl d ↦ inr (preset_found first sources k d)
        | inr n ↦ inl n
      ],
    )
