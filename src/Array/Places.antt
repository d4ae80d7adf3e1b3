-- ===== src/Array/Places.antt =====
-- Lists of components that are changed in their places: what every change keeps of each component,
-- and the names, which no change touches.
use mathlib.Core.Path.{subst}
use tia_infrastructure.Prelude.{
  ℕ, zero, suc, ◌<◌, ◌≡◌, refl, sym, ap, ◌∙◌, some, List, [], ◌∷◌, map, length, All, All-get_elem?,
  All-set, get_elem?, get_elem?-lt, set, Result, ok, ◌>>=◌, get_item, Safely, Safely-bind, arith,
}

module _ {ℓ} {A : Type ℓ} {N : Type 0} (P : A → Type 0) (name : A → N) where
  -- Each component is as it should be, and they have these names.
  abbrev pub Named : List N → List A → Type 0
  Named ns xs = All P xs × (map name xs ≡ ns)

  length-map : (xs : List A) → length (map name xs) ≡ length xs
  length-map [] = refl
  length-map (x ∷ xs) = ap suc (length-map xs)

  get_elem?-map :
      (xs : List A) (i : ℕ) {x : A}
      → get_elem? xs i ≡ some x
      → get_elem? (map name xs) i ≡ some (name x)
  get_elem?-map [] i e = cc
  get_elem?-map (y ∷ xs) zero e = cc
  get_elem?-map (y ∷ xs) (suc i) e = get_elem?-map xs i e

  map-set :
      (xs : List A) (i : ℕ) (x : A)
      → get_elem? (map name xs) i ≡ some (name x)
      → map name (set xs i x) ≡ map name xs
  map-set [] i x e = refl
  map-set (y ∷ xs) zero x e = ap (λ n. n ∷ map name xs) (cc)
  map-set (y ∷ xs) (suc i) x e = ap (λ ns. name y ∷ ns) (map-set xs i x e)

  -- The component at a place that has a name.
  pub Named-get :
      {ns : List N} (xs : List A) (i : ℕ)
      → Named ns xs
      → i < length ns
      → (x : A) × (get_elem? xs i ≡ some x) × P x × (get_elem? ns i ≡ some (name x))
  Named-get {ns} xs i (h, e) l =
      let (x, f) = get_elem?-lt xs i (omega (arith, l, ap length e, length-map xs)) in
      (
        x,
        f,
        All-get_elem? P xs i h f,
        subst (λ ms. get_elem? ms i ≡ some (name x)) e (get_elem?-map xs i f),
      )

  -- A component is changed in its place.
  pub Named-set :
      {ns : List N} (xs : List A) (i : ℕ) (x : A)
      → Named ns xs
      → P x
      → get_elem? ns i ≡ some (name x)
      → Named ns (set xs i x)
  Named-set xs i x (h, e) p f =
      (All-set P xs i x h p, map-set xs i x (ap (λ ms. get_elem? ms i) e ∙ f) ∙ e)

  -- A call that changes two components, and keeps of them what it should.
  abbrev pub Pairs : A → A → A × A → Type 0
  Pairs a b x = P x.0 × P x.1 × (name x.0 ≡ name a) × (name x.1 ≡ name b)

  -- A change of the components at two places of one list.
  pub pair-Named :
      (f : A → A → Result (A × A))
      → ((a b : A) → P a → P b → Safely ⊥ (Pairs a b) (f a b))
      → {ns : List N} (xs : List A) (i j : ℕ) → Named ns xs
      → i < length ns
      → j < length ns
      → Safely ⊥ (Named ns) (
          get_item xs i >>= λ a.
          get_item xs j >>= λ b. f a b >>= λ x. ok (set (set xs i x.0) j x.1))
  pair-Named f h {ns} xs i j g l m =
      let (a, e, p, n) = Named-get xs i g l in
      let (b, e', q, n') = Named-get xs j g m in
      rw (e, e')
        (Safely-bind ⊥ (Pairs a b) (Named ns) (f a b) (λ x. ok (set (set xs i x.0) j x.1))
          (h a b p q)
          λ x k.
            Named-set (set xs i x.0) j x.1 (Named-set xs i x.0 g k.0 (n ∙ ap some (sym k.2))) k.1
              (n' ∙ ap some (sym k.3)))

  -- A change of a component of each of two lists.
  pub between-Named :
      (f : A → A → Result (A × A))
      → ((a b : A) → P a → P b → Safely ⊥ (Pairs a b) (f a b))
      → {ns ms : List N} (xs ys : List A) (i j : ℕ) → Named ns xs
      → Named ms ys
      → i < length ns
      → j < length ms
      → Safely ⊥
          (λ (z : List A × List A). Named ns z.0 × Named ms z.1)
          (get_item xs i >>= λ a.
            get_item ys j >>= λ b. f a b >>= λ x. ok (set xs i x.0, set ys j x.1))
  between-Named f h {ns} {ms} xs ys i j g g' l m =
      let (a, e, p, n) = Named-get xs i g l in
      let (b, e', q, n') = Named-get ys j g' m in
      rw (e, e')
        (Safely-bind ⊥ (Pairs a b) (λ (z : List A × List A). Named ns z.0 × Named ms z.1) (f a b)
          (λ x. ok (set xs i x.0, set ys j x.1)) (h a b p q)
          λ x k. (
            Named-set xs i x.0 g k.0 (n ∙ ap some (sym k.2)),
            Named-set ys j x.1 g' k.1 (n' ∙ ap some (sym k.3)),
          ))
