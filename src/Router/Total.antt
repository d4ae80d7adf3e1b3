-- ===== src/Router/Total.antt =====
-- Routing never raises: a packet moves only from a buffer that holds one to a buffer with room, and
-- within the cycle no queue changes.
use tia_infrastructure.Prelude.{
  ℕ, suc, ◌<◌, ◌≡◌, refl, Option, none, some, List, [], ◌∷◌, length, get_elem?, get_elem?-lt, ok,
  arith, inl, inr, Bool-cases, List-cases,
}
use tia_infrastructure.Interconnect.{is_full}
use tia_infrastructure.Store.{Store}
use tia_infrastructure.Store.Keeps.{
  Keeps, Keeps_refl, Keeps_trans, CanEnqueue, CanDequeue, transfer_total,
}
use tia_infrastructure.Router.{
  RouterType, Router, move, route_in, route_out, route_sources, route_destinations, iterate,
}

-- What a loop's list of optional references wants: an index into the core's list, and a buffer.
abbrev pub Wired : List ℕ → ℕ → ℕ → List (Option ℕ) → Type 0
Wired refs n i [] = Unit
Wired refs n i (none ∷ xs) = Wired refs n (suc i) xs
Wired refs n i (some x ∷ xs) =
    ((r : ℕ) × (get_elem? refs i ≡ some r) × (r < n)) × (x < n) × Wired refs n (suc i) xs

pub record IsWired (r : Router) (n : ℕ) : Type 0 where
  pub sources : Wired r.input_channel_buffers n 0 r.source_buffers
  pub destinations : Wired r.output_channel_buffers n 0 r.destination_buffers

move_total :
    (from to : ℕ) {s : Store}
    → CanDequeue s from
    → CanEnqueue s to
    → (t : Store) × (move from to s ≡ ok t) × Keeps s t
unfolding move
move_total from to d e = transfer_total from to d e

pub route_in_total :
    (source input : ℕ) (s : Store)
    → source < length s
    → input < length s
    → (t : Store) × (route_in source input s ≡ ok t) × Keeps s t
unfolding route_in
route_in_total source input s h l =
    let (b, e) = get_elem?-lt s source h in
    let (c, f) = get_elem?-lt s input l in
    elim (Bool-cases (is_full c)) [
      | inl full ↦ (s, simp (e, f, full), Keeps_refl s)
      | inr room ↦ elim (List-cases b.deque) [
        | inl nothing ↦ (s, simp (e, f, room, nothing) (ground arith), Keeps_refl s)
        | inr (p, ps, stock) ↦
            let (t, g, k) =
              move_total source input
                (record { buffer = b; head = p; rest = ps; there = e; stock = stock })
                (record { buffer = c; there = f; room = room }) in
            (t, simp (e, f, room, stock) (ground (arith, g)), k)
      ]
    ]

pub route_out_total :
    (output destination : ℕ) (s : Store)
    → output < length s
    → destination < length s
    → (t : Store) × (route_out output destination s ≡ ok t) × Keeps s t
unfolding route_out
route_out_total output destination s h l =
    let (b, e) = get_elem?-lt s output h in
    let (c, f) = get_elem?-lt s destination l in
    elim (Bool-cases (is_full c)) [
      | inl full ↦ (s, simp (e, f, full) (ground arith), Keeps_refl s)
      | inr room ↦ elim (List-cases b.deque) [
        | inl nothing ↦ (s, simp (e, f, room, nothing) (ground arith), Keeps_refl s)
        | inr (p, ps, stock) ↦
            let (t, g, k) =
              move_total output destination
                (record { buffer = b; head = p; rest = ps; there = e; stock = stock })
                (record { buffer = c; there = f; room = room }) in
            (t, simp (e, f, room, stock) (ground (arith, g)), k)
      ]
    ]

route_sources_total :
    (inputs : List ℕ) (i : ℕ) (ss : List (Option ℕ)) (s : Store)
    → Wired inputs (length s) i ss
    → (t : Store) × (route_sources inputs i ss s ≡ ok t) × Keeps s t
unfolding route_sources
route_sources_total inputs i [] s w = (s, refl, Keeps_refl s)
route_sources_total inputs i (none ∷ ss) s w = route_sources_total inputs (suc i) ss s w
route_sources_total inputs i (some x ∷ ss) s ((r, e, l), m, w) =
    let (t, f, k) = route_in_total x r s m l in
    let (u, g, j) = route_sources_total inputs (suc i) ss t (rw k.same_length w) in
    (u, rw (e, f, g), Keeps_trans k j)

route_destinations_total :
    (outputs : List ℕ) (i : ℕ) (ds : List (Option ℕ)) (s : Store)
    → Wired outputs (length s) i ds
    → (t : Store) × (route_destinations outputs i ds s ≡ ok t) × Keeps s t
unfolding route_destinations
route_destinations_total outputs i [] s w = (s, refl, Keeps_refl s)
route_destinations_total outputs i (none ∷ ds) s w = route_destinations_total outputs (suc i) ds s w
route_destinations_total outputs i (some x ∷ ds) s ((r, e, l), m, w) =
    let (t, f, k) = route_out_total r x s l m in
    let (u, g, j) = route_destinations_total outputs (suc i) ds t (rw k.same_length w) in
    (u, rw (e, f, g), Keeps_trans k j)

-- A wired router never raises, and changes no queue before the commit.
pub iterate_total :
    (r : Router) (s : Store) → IsWired r (length s) → (t : Store) × (iterate r s ≡ ok t) × Keeps s t
unfolding iterate
iterate_total r s w = by_type r.router_type refl
  where
    by_type : (y : RouterType) → r.router_type ≡ y → (t : Store) × (iterate r s ≡ ok t) × Keeps s t
    by_type RouterType.software e =
        let (t, f, k) =
          route_sources_total r.input_channel_buffers 0 r.source_buffers s w.sources in
        let (u, g, j) =
          route_destinations_total r.output_channel_buffers 0 r.destination_buffers t
            (rw k.same_length w.destinations) in
        (u, simp (e, f, g), Keeps_trans k j)
    by_type RouterType.switch e = (s, simp e, Keeps_refl s)
    by_type RouterType.virtual_circuit e = (s, simp e, Keeps_refl s)
