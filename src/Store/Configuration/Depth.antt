-- ===== src/Store/Configuration/Depth.antt =====
-- The nesting of a value, and `value_depth`.
use whale_ai_sdk.Base.{
  Bool-cases, ltb, ltb→lt, ltb→ge, ◌+◌, ◌∷◌, ◌≡◌, ◌<◌, ◌≤◌, ◌⊎◌, All, List, Option-cases, [], arith,
  inl, inr, map, max, min, none, refl, saturating_add, some, suc, u64_max, zero, ℕ, ap, sym, ◌∙◌,
  subst,
}
use whale_ai_sdk.Base.TreeMap.{TreeMap, values}
use whale_ai_sdk.Store.Configuration.{max_or, value_depth}
use whale_ai_sdk.Store.Env.{Env}

-- A member of a list.
abbrev pub Among : {A : Type 0} → A → List A → Type 0
Among x [] = ⊥
Among x (y ∷ ys) = (x ≡ y) ⊎ Among x ys

-- A depth below a parent, within a machine integer.
abbrev pub bounded : ℕ → ℕ → ℕ
bounded parent n = min (parent + n) u64_max

module _ {V : Type 0} ⦃env : Env V⦄ where
  -- The children of an array or an object, which is asked for second.
  abbrev pub Contains : V → List V → Type 0
  Contains v items =
      (env.as_array v ≡ some items)
      ⊎ ((env.as_array v ≡ none)
          × (fields : TreeMap V) × (env.as_object v ≡ some fields)
          × (values fields ≡ items))

  -- A chain of `n` containers, each in the one before, that starts at the value.
  pub data Chain : V → ℕ → Type 0 where
    stops : {v : V} → Chain v 0
    last : {v : V} {items : List V} → Contains v items → Chain v 1
    inner :
        {v x : V} {items : List V} {n : ℕ}
        → Contains v items
        → Among x items
        → Chain x n
        → Chain v (suc n)

  -- The length of a longest chain below a value.
  pub record Deepest (v : V) (n : ℕ) : Type 0 where
    pub chain : Chain v n
    pub longest : (m : ℕ) → Chain v m → m ≤ n

  -- A depth that is the parent's and a longest chain's.
  pub record Depth (depth : ℕ) (v : V) (parent : ℕ) : Type 0 where
    pub nesting : ℕ
    pub value : depth ≡ bounded parent nesting
    pub deepest : Deepest v nesting

  -- The deepest of the children of a container.
  record Children (items : List V) (deeper : ℕ) (depths : List ℕ) : Type 0 where
    most : ℕ
    value : max_or deeper depths ≡ bounded deeper most
    reached : (most ≡ 0) ⊎ ((x : V) × Among x items × Chain x most)
    bound : (x : V) → Among x items → (m : ℕ) → Chain x m → m ≤ most

  children :
      (fuel limit deeper : ℕ) (items : List V)
      → deeper ≤ u64_max
      → ((x : V) → env.rank x < limit → Depth (value_depth fuel x deeper) x deeper)
      → All (λ x. env.rank x < limit) items
      → Children items deeper (map (λ x. value_depth fuel x deeper) items)
  children fuel limit deeper [] fits each small = record {
    most = 0;
    value = omega arith;
    reached = inl refl;
    bound = λ x among m chain. absurd among;
  }
  children fuel limit deeper (x ∷ []) fits each small =
      let first = each x small.0 in
      let n = first.nesting in
      let depth = first.value in
      let deepest = first.deepest in
      record {
        most = n;
        value = depth;
        reached = inr (x, inl refl, deepest.chain);
        bound = λ y among m chain. elim among [
          | inl same ↦ deepest.longest m (subst (λ z. Chain z m) same chain)
          | inr more ↦ absurd more
        ];
      }
  children fuel limit deeper (x ∷ y ∷ items) fits each small =
      let first = each x small.0 in
      let n = first.nesting in
      let depth = first.value in
      let deepest = first.deepest in
      let rest = children fuel limit deeper (y ∷ items) fits each small.1 in
      let value = rest.value in
      record {
        most = max n rest.most;
        value = omega arith;
        reached = elim (Bool-cases (ltb n rest.most)) [
          | inl less ↦
              let h = ltb→lt n rest.most less in
              elim rest.reached [
                | inl none_below ↦ absurd (omega arith)
                | inr (z, among, chain) ↦ inr (
                  z,
                  inr among,
                  subst (λ k. Chain z k) {x = rest.most} {y = max n rest.most} (omega arith) chain,
                )
              ]
          | inr more ↦
              let h = ltb→ge n rest.most more in
              inr (
                x,
                inl refl,
                subst (λ k. Chain x k) {x = n} {y = max n rest.most} (omega arith) deepest.chain,
              )
        ];
        bound = λ z among m chain. elim among [
          | inl same ↦
              (let h = deepest.longest m (subst (λ w. Chain w m) same chain) in omega arith)
          | inr more ↦ (let h = rest.bound z more m chain in omega arith)
        ];
      }

  Contains-same : (v : V) (xs ys : List V) → Contains v xs → Contains v ys → xs ≡ ys
  Contains-same v xs ys (inl a) (inl b) = ground arith
  Contains-same v xs ys (inl a) (inr (b, fields, c, d)) = absurd (ground arith)
  Contains-same v xs ys (inr (b, fields, c, d)) (inl a) = absurd (ground arith)
  Contains-same v xs ys (inr (a, fields, b, c)) (inr (a', fields', b', c')) =
      let same : fields ≡ fields' = ground arith in sym c ∙ ap (λ f. values f) same ∙ c'

  container-longest :
      (v : V) (items : List V) (most : ℕ)
      → Contains v items
      → ((x : V) → Among x items → (m : ℕ) → Chain x m → m ≤ most)
      → (m : ℕ) → Chain v m
      → m ≤ suc most
  container-longest v items most c bound _ stops = omega arith
  container-longest v items most c bound _ (last c') = omega arith
  container-longest v items most c bound _ (inner {x = x} {items = items'} {n = n} c' among chain) =
      let same = Contains-same v items' items c' c in
      let h = bound x (subst (λ xs. Among x xs) same among) n chain in omega arith

  container-Depth :
      (v : V) (items : List V) (parent : ℕ) (depths : List ℕ)
      → parent ≤ u64_max
      → Contains v items
      → Children items (saturating_add parent 1) depths
      → Depth (max_or (saturating_add parent 1) depths) v parent
  container-Depth v items parent depths fits c below =
      let value = below.value in
      record {
        nesting = suc below.most;
        value = ground arith;
        deepest = record {
          chain = elim below.reached [
            | inl nothing ↦ subst (λ k. Chain v (suc k)) (sym nothing) (last c)
            | inr (x, among, chain) ↦ inner c among chain
          ];
          longest = container-longest v items below.most c below.bound;
        };
      }

  scalar-longest :
      (v : V) → env.as_array v ≡ none → env.as_object v ≡ none → (m : ℕ) → Chain v m → m ≤ 0
  scalar-longest v a o _ stops = omega arith
  scalar-longest v a o _ (last (inl found)) = absurd (ground arith)
  scalar-longest v a o _ (last (inr (missing, fields, found, same))) = absurd (ground arith)
  scalar-longest v a o _ (inner (inl found) among chain) = absurd (ground arith)
  scalar-longest v a o _ (inner (inr (missing, fields, found, same)) among chain) =
      absurd (ground arith)

  -- With fuel above the rank of a value, its depth below a parent is the parent's and the length of
  -- a longest chain of nested arrays and objects that starts at the value, cut at the largest u64:
  -- such a chain exists, and none is longer. A value that is neither an array nor an object has a
  -- chain of length 0 only.
  pub value_depth-Deepest :
      (fuel : ℕ) (v : V) (parent : ℕ)
      → env.rank v < fuel
      → parent ≤ u64_max
      → Depth (value_depth fuel v parent) v parent
  unfolding value_depth
  value_depth-Deepest zero v parent enough fits = absurd (omega arith)
  value_depth-Deepest (suc fuel) v parent enough fits =
      let deeper = saturating_add parent 1 in
      let in_range : deeper ≤ u64_max = ground arith in
      let each : (x : V) → env.rank x < env.rank v → Depth (value_depth fuel x deeper) x deeper =
        λ x h. value_depth-Deepest fuel x deeper (omega arith) in_range in
      elim (Option-cases (env.as_array v)) [
        | inr (items, e) ↦
            rw (e, value_depth)
              (container-Depth v items parent (map (λ x. value_depth fuel x deeper) items) fits
                (inl e)
                (children fuel (env.rank v) deeper items in_range each (env.rank_array v items e)))
        | inl missing ↦ elim (Option-cases (env.as_object v)) [
          | inr (fields, e) ↦
              rw (missing, e, value_depth)
                (container-Depth v (values fields) parent
                  (map (λ x. value_depth fuel x deeper) (values fields)) fits
                  (inr (missing, fields, e, refl))
                  (children fuel (env.rank v) deeper (values fields) in_range each
                    (env.rank_object v fields e)))
          | inl absent ↦
              rw (missing, absent, value_depth)
                (record {
                  nesting = 0;
                  value = ground arith;
                  deepest = record { chain = stops; longest = scalar-longest v missing absent };
                })
        ]
      ]
