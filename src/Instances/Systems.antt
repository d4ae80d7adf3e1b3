-- ===== src/Instances/Systems.antt =====
-- The systems of tools/simulator/instances.py: with four-way parameters each is built, and fits.
use mathlib.Core.Path.{subst}
use mathlib.Core.List.{Permᴰ}
use mathlib.Core.List.Permᴰ
use tia_infrastructure.Prelude.{
  ℕ, ◌<◌, ◌≡◌, refl, ap, List, [], ◌∷◌, length, Result, ok, err, attribute_error, ◌>>=◌, Safely,
  Safely-bind, Safely-of_eq, ok_of_Safely, arith,
}
use tia_infrastructure.Prelude.Text.{Text, codes}
use tia_infrastructure.Prelude.Sort.{sorted_by, sorted_by_perm}
use tia_infrastructure.Parameters.{CoreParameters}
use tia_infrastructure.Parameters.Platform.{InterconnectParameters, SystemParameters}
use tia_infrastructure.Direction.{Direction}
use tia_infrastructure.Isa.Numpy.{Numpy}
use tia_infrastructure.Router.Create.{new_element}
use tia_infrastructure.Router.Created.{IsFourWay, Created, new_element-Created}
use tia_infrastructure.System.{System}
use tia_infrastructure.System.Finalize.{element_names, natural_number_sort_key}
use tia_infrastructure.Array
use tia_infrastructure.Array.{register_elements}
use tia_infrastructure.Array.Quartet
use tia_infrastructure.Array.Quartet.{processing_element_indices}
use tia_infrastructure.Array.Block
use tia_infrastructure.Array.Block.{register_quartets, quartet_base_indices, base_rows}
use tia_infrastructure.Array.Created.{Built, quartet-Built, create-Built}
use tia_infrastructure.Array.Block.Created.{BuiltSquares, squares_names, block-BuiltSquares}
use tia_infrastructure.Instances.{
  Draft, read_port, write_port, finish, build_pets_system, build_qts_system, build_bts_system,
  build_ats_system,
}
use tia_infrastructure.Instances.Ports.{Drafted, read_port-Drafted, write_port-Drafted}
use tia_infrastructure.Instances.Registers.{
  register_elements-Drafted, register_quartets-Drafted, IsInstance, finish-IsInstance, concat,
}

module _ (np : Numpy) (cp : CoreParameters) (ip : InterconnectParameters) (sp : SystemParameters)
    (w : IsFourWay cp ip) where
  -- The end of each construction.
  finish-Safely :
      (n : ℕ) (ns : List Text) (x : Draft)
      → Permᴰ ns (element_names 0 n)
      → Drafted ns x
      → Safely ⊥ (IsInstance np n) (finish x)
  finish-Safely n ns x p d =
      Safely-of_eq ⊥ (IsInstance np n) (finish x) (finish-IsInstance np n ns x p d)

  module _ (n : ℕ) (ns : List Text) (p : Permᴰ ns (element_names 0 n)) where
    -- A port is attached, and the construction goes on.
    reads :
        (name : Text) (i : ℕ) (d : Direction) (x : Draft) (rest : Draft → Result System)
        → i < length ns
        → Drafted ns x
        → ((y : Draft) → Drafted ns y → Safely ⊥ (IsInstance np n) (rest y))
        → Safely ⊥ (IsInstance np n) (read_port name sp i d x >>= rest)
    reads name i d x rest l h k =
        Safely-bind ⊥ (Drafted ns) (IsInstance np n) (read_port name sp i d x) rest
          (read_port-Drafted ns name sp i d x l h) k

    ends :
        (name : Text) (i : ℕ) (d : Direction) (j : ℕ) (e : Direction) (x : Draft)
        → i < length ns
        → j < length ns
        → Drafted ns x
        → Safely ⊥ (IsInstance np n) (write_port name sp i d j e x >>= λ y. finish y)
    ends name i d j e x l m h =
        Safely-bind ⊥ (Drafted ns) (IsInstance np n) (write_port name sp i d j e x) (λ y. finish y)
          (write_port-Drafted ns name sp i d j e x l m h) λ y k. finish-Safely n ns y p k

  build_pets_system-IsInstance :
      (z : System) × (build_pets_system cp ip sp ≡ ok z) × IsInstance np 1 z
  unfolding build_pets_system register_elements
  build_pets_system-IsInstance =
      let ns = element_names 0 1 in
      let same = Permᴰ.refl ns in
      let name = codes "processing_element_0" in
      ok_of_Safely (build_pets_system cp ip sp) (λ e. e)
        (Safely-bind ⊥ (Created cp ip w name []) (IsInstance np 1) (new_element name cp ip []) _
          (new_element-Created cp ip w name [])
          λ x c.
            reads 1 ns same _ 0 Direction.north _ _ (omega arith)
              (register_elements-Drafted sp ns (x.0 ∷ []) x.1 ((c.0, tt), ap (λ n. n ∷ []) c.1)
                (c.2.loose tt))
              λ x₁ d₁. reads 1 ns same _ 0 Direction.east x₁ _ (omega arith) d₁ λ x₂ d₂.
                ends 1 ns same _ 0 Direction.south 0 Direction.west x₂ (omega arith) (omega arith)
                  d₂)

  build_qts_system-IsInstance :
      (z : System) × (build_qts_system cp ip sp ≡ ok z) × IsInstance np 4 z
  unfolding build_qts_system processing_element_indices
  build_qts_system-IsInstance =
      let ns = element_names 0 4 in
      let same = Permᴰ.refl ns in
      ok_of_Safely (build_qts_system cp ip sp) (λ e. e)
        (Safely-bind ⊥ (Built cp ip w ns []) (IsInstance np 4) (Quartet.create 0 0 2 cp ip []) _
          (quartet-Built cp ip w 0 0 2 [])
          λ x c.
            reads 4 ns same _ 0 Direction.north _ _ (omega arith)
              (register_elements-Drafted sp ns x.0 x.1 c.0 (c.1.loose tt))
              λ x₁ d₁. reads 4 ns same _ 1 Direction.north x₁ _ (omega arith) d₁ λ x₂ d₂.
                ends 4 ns same _ 2 Direction.south 3 Direction.south x₂ (omega arith) (omega arith)
                  d₂)

  -- The names of the elements of a block, quartet after quartet.
  abbrev block_names : List Text
  block_names = concat (squares_names cp ip w 4 (quartet_base_indices 0 0))

  block_names_perm : Permᴰ block_names (element_names 0 16)
  unfolding quartet_base_indices base_rows processing_element_indices
  block_names_perm =
      let sorted : sorted_by natural_number_sort_key block_names ≡ element_names 0 16 = refl in
      subst (Permᴰ block_names) sorted
        (Permᴰ.symm (sorted_by_perm natural_number_sort_key block_names))

  build_bts_system-IsInstance :
      (z : System) × (build_bts_system cp ip sp ≡ ok z) × IsInstance np 16 z
  unfolding build_bts_system quartet_base_indices base_rows processing_element_indices
  build_bts_system-IsInstance =
      let ns = block_names in
      let nss = squares_names cp ip w 4 (quartet_base_indices 0 0) in
      ok_of_Safely (build_bts_system cp ip sp) (λ e. e)
        (Safely-bind ⊥ (BuiltSquares cp ip w nss []) (IsInstance np 16)
          (Block.create 0 0 4 cp ip []) _ (block-BuiltSquares cp ip w 0 0 4 [] refl)
          λ x c.
            reads 16 ns block_names_perm _ 0 Direction.north _ _ (omega arith)
              (register_quartets-Drafted sp nss x.0 x.1 c.0 (c.1.loose tt))
              λ x₁ d₁.
                reads 16 ns block_names_perm _ 1 Direction.north x₁ _ (omega arith) d₁ λ x₂ d₂.
                  reads 16 ns block_names_perm _ 4 Direction.north x₂ _ (omega arith) d₂ λ x₃ d₃.
                    reads 16 ns block_names_perm _ 5 Direction.north x₃ _ (omega arith) d₃ λ x₄ d₄.
                      ends 16 ns block_names_perm _ 10 Direction.south 11 Direction.south x₄
                        (omega arith) (omega arith) d₄)

  -- Given software routers with a link for each direction, the three test systems of the hardware are
  -- built without a raise, with 1, 4 and 16 elements in the order of their numbers: all buffers, links
  -- and ports are in the system's store.
  pub builds-IsInstance :
      ((z : System) × (build_pets_system cp ip sp ≡ ok z) × IsInstance np 1 z)
      × ((z : System) × (build_qts_system cp ip sp ≡ ok z) × IsInstance np 4 z)
      × ((z : System) × (build_bts_system cp ip sp ≡ ok z) × IsInstance np 16 z)
  builds-IsInstance =
      (build_pets_system-IsInstance, build_qts_system-IsInstance, build_bts_system-IsInstance)

module _ (cp : CoreParameters) (ip : InterconnectParameters) (sp : SystemParameters)
    (w : IsFourWay cp ip) where
  -- Given software routers with a link for each direction, the array test system is never built, whatever
  -- its size: its registration raises an `AttributeError`.
  pub build_ats_system-raises :
      (rows columns : ℕ) → build_ats_system cp ip sp rows columns ≡ err attribute_error
  unfolding build_ats_system
  build_ats_system-raises rows columns =
      let (x, e, h) =
        ok_of_Safely (Array.create rows columns cp ip []) (λ f. f)
          (create-Built cp ip w rows columns []) in
      rw e
