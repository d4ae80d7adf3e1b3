-- ===== src/Instances/Ports.antt =====
-- The ports of the systems of tools/simulator/instances.py: attaching one does not raise, and keeps the
-- system's parts in its store.
use tia_infrastructure.Prelude.{
  ℕ, suc, ◌+◌, ◌≤◌, ◌<◌, ◌≡◌, refl, ap, ◌∙◌, none, some, List, [], ◌∷◌, ◌++◌, length, All, All-map,
  get_elem?, set, ok, ◌>>=◌, length-append, Safely, get_elem?-lt, lt_of_get_elem?, arith,
}
use tia_infrastructure.Prelude.Text.{Text}
use tia_infrastructure.Prelude.Text.Parts.{All-append}
use tia_infrastructure.Direction.{Direction, index}
use tia_infrastructure.Parameters.Platform.{SystemParameters}
use tia_infrastructure.Interconnect.{BufferClass, Buffer, fresh_buffer}
use tia_infrastructure.Store.{Store}
use tia_infrastructure.Router.{
  ProcessingElement, connect_to_sender_channel_buffer, connect_to_receiver_channel_buffer,
}
use tia_infrastructure.Router.Wiring.{index-lt}
use tia_infrastructure.Router.Placed.{
  Placed, Placed-le, Within-le, with_source, with_destination, with_source-Placed,
  with_destination-Placed,
}
use tia_infrastructure.Router.Created.{Loose, fresh_buffer-Loose}
use tia_infrastructure.Memory.{Memory, ReadPort, WritePort, add_read_port, add_write_port}
use tia_infrastructure.Memory.Safety.{MemoryFits}
use tia_infrastructure.Memory.Ports.{ReadPortFits, WritePortFits}
use tia_infrastructure.Array.Places.{Named-get, Named-set}
use tia_infrastructure.Array.Wires.{Elements}
use tia_infrastructure.Instances.{
  Draft, to_receiver, from_sender, new_read_port, new_write_port, read_port, write_port,
}

-- A system under construction whose elements have these names, all of whose parts are in its store.
pub record Drafted (ns : List Text) (x : Draft) : Type 0 where
  pub elements : Elements (length x.system.store) ns x.system.processing_elements
  pub registered : All (λ r. r < length x.system.store) x.system.buffers
  pub loose : All Loose x.system.store
  pub memory : MemoryFits (length x.system.store) x.memory
  pub no_memories : x.system.memories ≡ []

-- The store grows by two buffers.
abbrev grow : Buffer → Buffer → Draft → Draft
grow a b x = record x { system = record (x.system) { store = x.system.store ++ (a ∷ b ∷ []) } }

get_elem?-append {ℓ} :
    {A : Type ℓ} (xs : List A) (y : A) (ys : List A)
    → get_elem? (xs ++ (y ∷ ys)) (length xs) ≡ some y
get_elem?-append [] y ys = refl
get_elem?-append (x ∷ xs) y ys = get_elem?-append xs y ys

get_elem?-append_second {ℓ} :
    {A : Type ℓ} (xs : List A) (y z : A) (ys : List A)
    → get_elem? (xs ++ (y ∷ z ∷ ys)) (suc (length xs)) ≡ some z
get_elem?-append_second [] y z ys = refl
get_elem?-append_second (x ∷ xs) y z ys = get_elem?-append_second xs y z ys

MemoryFits-le : {n m : ℕ} (x : Memory) → n ≤ m → MemoryFits n x → MemoryFits m x
MemoryFits-le x l f = record {
  reads =
      All-map
        (λ p g. record { address = omega (arith, g.address, l); words = omega (arith, g.words, l) })
        x.read_ports f.reads;
  writes =
      All-map
        (λ p g. record { address = omega (arith, g.address, l); words = omega (arith, g.words, l) })
        x.write_ports f.writes;
}

grow-Drafted :
    {ns : List Text} (a b : Buffer) (x : Draft)
    → Loose a
    → Loose b
    → Drafted ns x
    → Drafted ns (grow a b x)
grow-Drafted a b x h k d =
    let l : length x.system.store ≤ length (x.system.store ++ (a ∷ b ∷ [])) =
      omega (arith, length-append x.system.store (a ∷ b ∷ [])) in
    record {
      elements =
          (All-map (λ p. Placed-le l) x.system.processing_elements d.elements.0, d.elements.1);
      registered = Within-le x.system.buffers l d.registered;
      loose = All-append Loose x.system.store (a ∷ b ∷ []) d.loose (h, (k, tt));
      memory = MemoryFits-le x.memory l d.memory;
      no_memories = d.no_memories;
    }

module _ (ns : List Text) where
  -- A receiving buffer of the store is connected to a side of an element.
  to_receiver-Drafted :
      (i : ℕ) (d : Direction) (k : ℕ) (b : Buffer) (x : Draft)
      → i < length ns
      → get_elem? x.system.store k ≡ some b
      → b.buffer_class ≡ BufferClass.receiver
      → Drafted ns x
      → (y : Draft) × (to_receiver i d k x ≡ ok y)
        × Drafted ns y
        × (y.system.store ≡ x.system.store)
        × (y.memory ≡ x.memory)
  unfolding to_receiver connect_to_receiver_channel_buffer
  to_receiver-Drafted i d k b x l e c h =
      let (p, f, g, n) =
        Named-get (Placed (length x.system.store)) (λ (p : ProcessingElement). p.name)
          x.system.processing_elements i h.elements l in
      let (o, q) =
        get_elem?-lt p.router.destination_buffers (index d)
          (omega (arith, index-lt d, g.links.destinations)) in
      let lk : k < length x.system.store = lt_of_get_elem? x.system.store k e in
      (
        record x {
          system = record (x.system) {
            processing_elements = set x.system.processing_elements i (with_destination d k p);
          };
        },
        simp (f, g.links.software, e, c, q),
        record {
          elements =
              Named-set (Placed (length x.system.store)) (λ (p : ProcessingElement). p.name)
                x.system.processing_elements i (with_destination d k p) h.elements
                (with_destination-Placed d k p lk g) n;
          registered = h.registered;
          loose = h.loose;
          memory = h.memory;
          no_memories = h.no_memories;
        },
        refl,
        refl,
      )

  -- A sending buffer likewise.
  from_sender-Drafted :
      (i : ℕ) (d : Direction) (k : ℕ) (b : Buffer) (x : Draft)
      → i < length ns
      → get_elem? x.system.store k ≡ some b
      → b.buffer_class ≡ BufferClass.sender
      → Drafted ns x
      → (y : Draft) × (from_sender i d k x ≡ ok y)
        × Drafted ns y
        × (y.system.store ≡ x.system.store)
        × (y.memory ≡ x.memory)
  unfolding from_sender connect_to_sender_channel_buffer
  from_sender-Drafted i d k b x l e c h =
      let (p, f, g, n) =
        Named-get (Placed (length x.system.store)) (λ (p : ProcessingElement). p.name)
          x.system.processing_elements i h.elements l in
      let (o, q) =
        get_elem?-lt p.router.source_buffers (index d)
          (omega (arith, index-lt d, g.links.sources)) in
      let lk : k < length x.system.store = lt_of_get_elem? x.system.store k e in
      (
        record x {
          system = record (x.system) {
            processing_elements = set x.system.processing_elements i (with_source d k p);
          };
        },
        simp (f, g.links.software, e, c, q),
        record {
          elements =
              Named-set (Placed (length x.system.store)) (λ (p : ProcessingElement). p.name)
                x.system.processing_elements i (with_source d k p) h.elements
                (with_source-Placed d k p lk g) n;
          registered = h.registered;
          loose = h.loose;
          memory = h.memory;
          no_memories = h.no_memories;
        },
        refl,
        refl,
      )

  -- The two positions that a port takes are in the grown store.
  grown_length : (a b : Buffer) (s : Store) → length (s ++ (a ∷ b ∷ [])) ≡ length s + 2
  grown_length a b s = length-append s (a ∷ b ∷ [])

  add_read_port-Drafted :
      (p : ReadPort) (x : Draft)
      → ReadPortFits (length x.system.store) p
      → Drafted ns x
      → Drafted ns (record x { memory = add_read_port p x.memory })
  unfolding add_read_port
  add_read_port-Drafted p x f h = record {
    elements = h.elements;
    registered = h.registered;
    loose = h.loose;
    memory = record {
      reads =
          All-append (ReadPortFits (length x.system.store)) x.memory.read_ports (p ∷ [])
            h.memory.reads (f, tt);
      writes = h.memory.writes;
    };
    no_memories = h.no_memories;
  }

  add_write_port-Drafted :
      (p : WritePort) (x : Draft)
      → WritePortFits (length x.system.store) p
      → Drafted ns x
      → Drafted ns (record x { memory = add_write_port p x.memory })
  unfolding add_write_port
  add_write_port-Drafted p x f h = record {
    elements = h.elements;
    registered = h.registered;
    loose = h.loose;
    memory = record {
      reads = h.memory.reads;
      writes =
          All-append (WritePortFits (length x.system.store)) x.memory.write_ports (p ∷ [])
            h.memory.writes (f, tt);
    };
    no_memories = h.no_memories;
  }

  module _ (a b : Buffer) (receives : a.buffer_class ≡ BufferClass.receiver) (a_loose : Loose a)
      (b_loose : Loose b) (x : Draft) (h : Drafted ns x) where
    attach_read :
        (i : ℕ) (d : Direction)
        → i < length ns
        → b.buffer_class ≡ BufferClass.sender
        → Safely ⊥ (Drafted ns) (
            to_receiver i d (length x.system.store) (grow a b x) >>= λ x₁.
            from_sender i d (suc (length x.system.store)) x₁ >>= λ x₂. ok (record x₂ {
              memory =
                  add_read_port
                    (record {
                      addr_in_channel_buffer = length x.system.store;
                      data_out_channel_buffer = suc (length x.system.store);
                      pending_read_packet = none;
                    })
                    x₂.memory;
            }))
    attach_read i d l sends =
        let s = x.system.store in
        let (y, e, g, es, em) =
          to_receiver-Drafted i d (length s) a (grow a b x) l (get_elem?-append s a (b ∷ []))
            receives (grow-Drafted a b x a_loose b_loose h) in
        let (z, e', g', fs, fm) =
          from_sender-Drafted i d (suc (length s)) b y l (rw es (get_elem?-append_second s a b []))
            sends g in
        let n : length z.system.store ≡ length s + 2 = ap length (fs ∙ es) ∙ grown_length a b s in
        rw (e, e')
          (add_read_port-Drafted
            (record {
              addr_in_channel_buffer = length s;
              data_out_channel_buffer = suc (length s);
              pending_read_packet = none;
            })
            z (record { address = omega (arith, n); words = omega (arith, n) }) g')

    attach_write :
        (i j : ℕ) (d e : Direction)
        → i < length ns
        → j < length ns
        → b.buffer_class ≡ BufferClass.receiver
        → Safely ⊥ (Drafted ns) (
            to_receiver i d (length x.system.store) (grow a b x) >>= λ x₁.
            to_receiver j e (suc (length x.system.store)) x₁ >>= λ x₂. ok (record x₂ {
              memory =
                  add_write_port
                    (record {
                      addr_in_channel_buffer = length x.system.store;
                      data_in_channel_buffer = suc (length x.system.store);
                    })
                    x₂.memory;
            }))
    attach_write i j d d' l m sends =
        let s = x.system.store in
        let (y, e, g, es, em) =
          to_receiver-Drafted i d (length s) a (grow a b x) l (get_elem?-append s a (b ∷ []))
            receives (grow-Drafted a b x a_loose b_loose h) in
        let (z, e', g', fs, fm) =
          to_receiver-Drafted j d' (suc (length s)) b y m (rw es (get_elem?-append_second s a b []))
            sends g in
        let n : length z.system.store ≡ length s + 2 = ap length (fs ∙ es) ∙ grown_length a b s in
        rw (e, e')
          (add_write_port-Drafted
            (record { addr_in_channel_buffer = length s; data_in_channel_buffer = suc (length s) })
            z (record { address = omega (arith, n); words = omega (arith, n) }) g')

  -- A read port is attached to a side of any element without a raise.
  pub read_port-Drafted :
      (name : Text) (sp : SystemParameters) (i : ℕ) (d : Direction) (x : Draft)
      → i < length ns
      → Drafted ns x
      → Safely ⊥ (Drafted ns) (read_port name sp i d x)
  unfolding read_port new_read_port fresh_buffer
  read_port-Drafted name sp i d x l h =
      attach_read (fresh_buffer BufferClass.receiver _ sp.test_data_memory_buffer_depth)
        (fresh_buffer BufferClass.sender _ sp.test_data_memory_buffer_depth) refl
        (fresh_buffer-Loose BufferClass.receiver _ _) (fresh_buffer-Loose BufferClass.sender _ _) x
        h i d l refl

  -- A write port is attached to sides of any two elements without a raise.
  pub write_port-Drafted :
      (name : Text) (sp : SystemParameters) (i : ℕ) (d : Direction) (j : ℕ) (e : Direction)
      (x : Draft)
      → i < length ns
      → j < length ns
      → Drafted ns x
      → Safely ⊥ (Drafted ns) (write_port name sp i d j e x)
  unfolding write_port new_write_port fresh_buffer
  write_port-Drafted name sp i d j e x l m h =
      attach_write (fresh_buffer BufferClass.receiver _ sp.test_data_memory_buffer_depth)
        (fresh_buffer BufferClass.receiver _ sp.test_data_memory_buffer_depth) refl
        (fresh_buffer-Loose BufferClass.receiver _ _) (fresh_buffer-Loose BufferClass.receiver _ _)
        x h i j d e l m refl
