-- ===== src/Instances/Registers.antt =====
-- The registration of elements and of a memory, and the end of the construction of a system of
-- tools/simulator/instances.py.
use mathlib.Core.Path.{subst}
use mathlib.Core.List.{Permᴰ, append-nil, map-append, append_assoc}
use tia_infrastructure.Prelude.{
  ℕ, ◌<◌, ◌≡◌, refl, sym, ap, ◌∙◌, List, [], ◌∷◌, ◌++◌, map, length, All, All-map, ok,
}
use tia_infrastructure.Prelude.Text.{Text}
use tia_infrastructure.Prelude.Text.Parts.{All-append}
use tia_infrastructure.Parameters.Platform.{SystemParameters}
use tia_infrastructure.Store.{Store}
use tia_infrastructure.Store.Keeps.{Within}
use tia_infrastructure.Isa.Numpy.{Numpy}
use tia_infrastructure.Router.{ProcessingElement}
use tia_infrastructure.Router.Placed.{Placed}
use tia_infrastructure.Router.Created.{Loose}
use tia_infrastructure.Memory
use tia_infrastructure.Memory.{Memory, ReadPort, WritePort}
use tia_infrastructure.Memory.Ports.{ReadPortFits, WritePortFits}
use tia_infrastructure.System.{
  System, register_element, register_memory, read_port_refs, write_port_refs,
}
use tia_infrastructure.System.Safety.{SystemFits, ElementFits}
use tia_infrastructure.System.Finalize.{element_names, names}
use tia_infrastructure.System.Finalize.Accepts.{finalize_iff, Finalized-SystemFits}
use tia_infrastructure.Array.{register_elements}
use tia_infrastructure.Array.Block.{register_quartets}
use tia_infrastructure.Array.Wires.{Elements}
use tia_infrastructure.Array.Block.Squares.{IsSquare, Squares}
use tia_infrastructure.Instances.{Draft, empty_system, start, finish}
use tia_infrastructure.Instances.Ports.{Drafted}

-- The elements are registered, and their buffers are in the store.
record Registers (ps : List ProcessingElement) (y z : System) : Type 0 where
  pub store : z.store ≡ y.store
  pub memories : z.memories ≡ y.memories
  pub elements : z.processing_elements ≡ y.processing_elements ++ ps
  pub within : All (λ r. r < length z.store) z.buffers

register_elements-Registers :
    (ps : List ProcessingElement) (y : System)
    → All (Placed (length y.store)) ps
    → All (λ r. r < length y.store) y.buffers
    → Registers ps y (register_elements ps y)
unfolding register_elements register_element
register_elements-Registers [] y h k = record {
  store = refl;
  memories = refl;
  elements = sym (append-nil y.processing_elements);
  within = k;
}
register_elements-Registers (p ∷ ps) y (f, h) k =
    let r = register_elements-Registers ps (register_element p y) h (
      All-append (λ r. r < length y.store) y.buffers _ k
        (All-append (λ r. r < length y.store) p.core.input_channel_buffers
          p.core.output_channel_buffers f.inputs_within f.outputs_within)) in
    record {
      store = r.store;
      memories = r.memories;
      elements = r.elements ∙ append_assoc y.processing_elements (p ∷ []) ps;
      within = r.within;
    }

abbrev pub concat {ℓ} : {A : Type ℓ} → List (List A) → List A
concat [] = []
concat (xs ∷ xss) = xs ++ concat xss

register_quartets-Registers :
    (qs : List (List ProcessingElement)) (y : System)
    → All (IsSquare (length y.store)) qs
    → All (λ r. r < length y.store) y.buffers
    → Registers (concat qs) y (register_quartets qs y)
unfolding register_quartets
register_quartets-Registers [] y h k = record {
  store = refl;
  memories = refl;
  elements = sym (append-nil y.processing_elements);
  within = k;
}
register_quartets-Registers (q ∷ qs) y (f, h) k =
    let r = register_elements-Registers q y f.0 k in
    let t = register_quartets-Registers qs (register_elements q y) (rw r.store h) r.within in
    record {
      store = t.store ∙ r.store;
      memories = t.memories ∙ r.memories;
      elements =
          t.elements
          ∙ ap (λ ps. ps ++ concat qs) r.elements
          ∙ append_assoc y.processing_elements q (concat qs);
      within = t.within;
    }

-- Registered elements beside a new memory.
start-Drafted :
    (sp : SystemParameters) (ns : List Text) (ps : List ProcessingElement) (s : Store) (y : System)
    → Elements (length s) ns ps
    → All Loose s
    → Registers ps (record empty_system { store = s }) y
    → Drafted ns (start sp y)
unfolding start Memory.init empty_system
start-Drafted sp ns ps s y h l r = record {
  elements = (rw (r.elements, r.store) h.0, rw r.elements h.1);
  registered = r.within;
  loose = rw r.store l;
  memory = record { reads = tt; writes = tt };
  no_memories = r.memories;
}

pub register_elements-Drafted :
    (sp : SystemParameters) (ns : List Text) (ps : List ProcessingElement) (s : Store)
    → Elements (length s) ns ps
    → All Loose s
    → Drafted ns (start sp (register_elements ps (record empty_system { store = s })))
unfolding empty_system
register_elements-Drafted sp ns ps s h l =
    start-Drafted sp ns ps s _ h l
      (register_elements-Registers ps (record empty_system { store = s }) h.0 tt)

-- The elements of quartets, one after another.
names-concat : (qs : List (List ProcessingElement)) → names (concat qs) ≡ concat (map names qs)
names-concat [] = refl
names-concat (q ∷ qs) =
    map-append (λ (p : ProcessingElement). p.name) q (concat qs)
    ∙ ap (λ ms. names q ++ ms) (names-concat qs)

concat-Placed :
    (n : ℕ) (qs : List (List ProcessingElement)) → All (IsSquare n) qs → All (Placed n) (concat qs)
concat-Placed n [] h = tt
concat-Placed n (q ∷ qs) (f, h) = All-append (Placed n) q (concat qs) f.0 (concat-Placed n qs h)

pub register_quartets-Drafted :
    (sp : SystemParameters) (nss : List (List Text)) (qs : List (List ProcessingElement))
    (s : Store)
    → Squares (length s) nss qs
    → All Loose s
    → Drafted (concat nss) (start sp (register_quartets qs (record empty_system { store = s })))
unfolding empty_system
register_quartets-Drafted sp nss qs s h l =
    start-Drafted sp (concat nss) (concat qs) s _
      (concat-Placed (length s) qs h.0, names-concat qs ∙ ap concat h.1) l
      (register_quartets-Registers qs (record empty_system { store = s }) h.0 tt)

read_port_refs-lt :
    (n : ℕ) (ps : List ReadPort) → All (ReadPortFits n) ps → All (λ r. r < n) (read_port_refs ps)
read_port_refs-lt n [] h = tt
read_port_refs-lt n (p ∷ ps) (f, h) = (f.address, (f.words, read_port_refs-lt n ps h))

write_port_refs-lt :
    (n : ℕ) (ps : List WritePort) → All (WritePortFits n) ps → All (λ r. r < n) (write_port_refs ps)
write_port_refs-lt n [] h = tt
write_port_refs-lt n (p ∷ ps) (f, h) = (f.address, (f.words, write_port_refs-lt n ps h))

-- A system that is built and not programmed: it fits, with the elements in their order and a memory.
pub record IsInstance (np : Numpy) (n : ℕ) (z : System) : Type 0 where
  pub fits : SystemFits np z
  pub in_order : names z.processing_elements ≡ element_names 0 n

Placed-ElementFits :
    (np : Numpy) (n : ℕ) (pe : ProcessingElement) → Placed n pe → ElementFits np n pe
Placed-ElementFits np n pe p = record { program = rw p.idle tt; wired = p.wired }

registered-SystemFits :
    (np : Numpy) (ns : List Text) (x : Draft)
    → Drafted ns x
    → SystemFits np (register_memory x.memory x.system)
unfolding register_memory
registered-SystemFits np ns x d =
    let n = length x.system.store in
    record {
      elements = All-map (Placed-ElementFits np n) x.system.processing_elements d.elements.0;
      memories = rw d.no_memories (d.memory, tt);
      registered =
          All-append (λ r. r < n) x.system.buffers _ d.registered
            (All-append (λ r. r < n) (read_port_refs x.memory.read_ports)
              (write_port_refs x.memory.write_ports)
              (read_port_refs-lt n x.memory.read_ports d.memory.reads)
              (write_port_refs-lt n x.memory.write_ports d.memory.writes));
      valid = All-map (λ b h. h.0) x.system.store d.loose;
      forwards = All-map (λ b h. subst (Within n) (sym h.1) tt) x.system.store d.loose;
    }

-- The construction ends well if the names of the elements are those of `n` elements in any order.
pub finish-IsInstance :
    (np : Numpy) (n : ℕ) (ns : List Text) (x : Draft)
    → Permᴰ ns (element_names 0 n)
    → Drafted ns x
    → (z : System) × (finish x ≡ ok z) × IsInstance np n z
unfolding finish register_memory
finish-IsInstance np n ns x p d =
    let (z, e, f) =
      (finalize_iff (register_memory x.memory x.system)).0 n
        (subst (λ ms. Permᴰ ms (element_names 0 n)) (sym d.elements.1) p) in
    (
      z,
      e,
      record {
        fits = Finalized-SystemFits np f (registered-SystemFits np ns x d);
        in_order = f.in_order;
      },
    )
