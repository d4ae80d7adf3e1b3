-- ===== src/Instances.antt =====
-- tools/simulator/instances.py: the systems that the simulators run, each an element, a quartet, a
-- block or an array beside a memory. Python registers the elements first and then connects the ports
-- to the registered objects; so here the system's list of elements is changed in its places.
pub mod Ports
pub mod Registers
pub mod Systems
pub mod Programs
use tia_infrastructure.Prelude.{
  ℕ, zero, suc, ◌+◌, ◌-◌, ◌*◌, ◌/◌, List, [], ◌∷◌, ◌++◌, length, set, Option, none, some, Result,
  or_raise, ok, err, attribute_error, ◌>>=◌, get_item,
}
use tia_infrastructure.Prelude.Text.{Text, codes, decimal}
use tia_infrastructure.Prelude.Int.{ℤ}
use tia_infrastructure.Isa.{Instruction}
use tia_infrastructure.Isa.Numpy.{Numpy}
use tia_infrastructure.Core
use tia_infrastructure.Direction.{Direction}
use tia_infrastructure.Parameters.{CoreParameters}
use tia_infrastructure.Parameters.Platform.{InterconnectParameters, SystemParameters}
use tia_infrastructure.Interconnect.{BufferClass, fresh_buffer}
use tia_infrastructure.Router.{
  ProcessingElement, connect_to_sender_channel_buffer, connect_to_receiver_channel_buffer,
}
use tia_infrastructure.Router.Create.{new_element}
use tia_infrastructure.Memory
use tia_infrastructure.Memory.{Memory, ReadPort, WritePort, add_read_port, add_write_port}
use tia_infrastructure.System.{System, register_element, register_memory}
use tia_infrastructure.System.Finalize.{finalize}
use tia_infrastructure.Array
use tia_infrastructure.Array.{for_range, register_elements}
use tia_infrastructure.Array.Quartet
use tia_infrastructure.Array.Block
use tia_infrastructure.Array.Block.{register_quartets}

-- What a system registers: the objects of these classes, an array and a quartet with their elements, a
-- block with its quartets.
pub data FunctionalUnit : Type 0 where
  processing_element : ProcessingElement → FunctionalUnit
  quartet : List ProcessingElement → FunctionalUnit
  block : List (List ProcessingElement) → FunctionalUnit
  array : List ProcessingElement → FunctionalUnit
  memory : Memory → FunctionalUnit

-- `getattr(element, "_register")`: the method of the object's class. `Array` has none.
abbrev pub registration_operation : FunctionalUnit → Option (System → System)
registration_operation (FunctionalUnit.processing_element p) = some (register_element p)
registration_operation (FunctionalUnit.quartet ps) = some (register_elements ps)
registration_operation (FunctionalUnit.block qs) = some (register_quartets qs)
registration_operation (FunctionalUnit.array ps) = none
registration_operation (FunctionalUnit.memory m) = some (register_memory m)

-- `System.register`. Methods are callable, so that the check of that never fails.
abbrev pub register : FunctionalUnit → System → Result System
register u y = or_raise (registration_operation u) attribute_error >>= λ operation. ok (operation y)

-- A system under construction, with its memory, which is registered at the end.
pub record Draft : Type 0 where
  pub system : System
  pub memory : Memory

-- `System()` with a store for the buffers, and `Memory("memory", ...)`.
unfoldable pub empty_system : System
empty_system = record {
  cycle = 0;
  processing_elements = [];
  memories = [];
  buffers = [];
  store = [];
}

unfoldable pub start : SystemParameters → System → Draft
start sp y = record {
  system = y;
  memory = Memory.init (codes "memory") sp.num_test_data_memory_words;
}

-- `processing_elements[i].connect_to_receiver_channel_buffer(d, buffers[k])`
unfoldable pub to_receiver : ℕ → Direction → ℕ → Draft → Result Draft
to_receiver i d k x = do
  p ← get_item x.system.processing_elements i
  r ← connect_to_receiver_channel_buffer d k x.system.store p.router
  ok (record x {
    system = record (x.system) {
      processing_elements = set x.system.processing_elements i (record p { router = r });
    };
  })

unfoldable pub from_sender : ℕ → Direction → ℕ → Draft → Result Draft
from_sender i d k x = do
  p ← get_item x.system.processing_elements i
  r ← connect_to_sender_channel_buffer d k x.system.store p.router
  ok (record x {
    system = record (x.system) {
      processing_elements = set x.system.processing_elements i (record p { router = r });
    };
  })

-- `ReadPort(name, depth)` and `WritePort(name, depth)`: the buffers come at the end of the store.
unfoldable pub new_read_port : Text → ℕ → Draft → ReadPort × Draft
new_read_port name depth x = (
  record {
    addr_in_channel_buffer = length x.system.store;
    data_out_channel_buffer = suc (length x.system.store);
    pending_read_packet = none;
  },
  record x {
    system = record (x.system) {
      store =
          x.system.store
          ++ (fresh_buffer BufferClass.receiver (name ++ codes " Address-In Channel Buffer") depth
              ∷ fresh_buffer BufferClass.sender (name ++ codes " Data-Out Channel Buffer") depth
              ∷ []);
    };
  },
)

unfoldable pub new_write_port : Text → ℕ → Draft → WritePort × Draft
new_write_port name depth x = (
  record {
    addr_in_channel_buffer = length x.system.store;
    data_in_channel_buffer = suc (length x.system.store);
  },
  record x {
    system = record (x.system) {
      store =
          x.system.store
          ++ (fresh_buffer BufferClass.receiver (name ++ codes " Address-In Channel Buffer") depth
              ∷ fresh_buffer BufferClass.receiver (name ++ codes " Data-In Channel Buffer") depth
              ∷ []);
    };
  },
)

-- "Wire up the first read port" and the like: the element sends addresses and receives words.
unfoldable pub read_port : Text → SystemParameters → ℕ → Direction → Draft → Result Draft
read_port name sp i d x =
    let (p, x₀) = new_read_port name sp.test_data_memory_buffer_depth x in
    to_receiver i d p.addr_in_channel_buffer x₀ >>= λ x₁.
    from_sender i d p.data_out_channel_buffer x₁ >>= λ x₂.
    ok (record x₂ { memory = add_read_port p x₂.memory })

-- "Wire up the write port": one element sends addresses and one words.
unfoldable pub write_port :
    Text → SystemParameters → ℕ → Direction → ℕ → Direction → Draft → Result Draft
write_port name sp i d j e x =
    let (p, x₀) = new_write_port name sp.test_data_memory_buffer_depth x in
    to_receiver i d p.addr_in_channel_buffer x₀ >>= λ x₁.
    to_receiver j e p.data_in_channel_buffer x₁ >>= λ x₂.
    ok (record x₂ { memory = add_write_port p x₂.memory })

-- `system.register(memory)` and `system.finalize()`
unfoldable pub finish : Draft → Result System
finish x = register (FunctionalUnit.memory x.memory) x.system >>= λ y. finalize y

module _ (cp : CoreParameters) (ip : InterconnectParameters) (sp : SystemParameters) where
  unfoldable pub build_pets_system : Result System
  build_pets_system = do
    (p, s) ← new_element (codes "processing_element_0") cp ip []
    y ← register (FunctionalUnit.processing_element p) (record empty_system { store = s })
    let x₀ = start sp y
    x₁ ← read_port (codes "read_port_0") sp 0 Direction.north x₀
    x₂ ← read_port (codes "read_port_1") sp 0 Direction.east x₁
    x₃ ← write_port (codes "write_port") sp 0 Direction.south 0 Direction.west x₂
    finish x₃

  -- Both read ports have the name of the first.
  unfoldable pub build_qts_system : Result System
  build_qts_system = do
    (ps, s) ← Quartet.create 0 0 2 cp ip []
    y ← register (FunctionalUnit.quartet ps) (record empty_system { store = s })
    let x₀ = start sp y
    x₁ ← read_port (codes "read_port_0") sp 0 Direction.north x₀
    x₂ ← read_port (codes "read_port_0") sp 1 Direction.north x₁
    x₃ ← write_port (codes "write_port") sp 2 Direction.south 3 Direction.south x₂
    finish x₃

  -- The element `i` of the quartet `q` is registered as number `4 * q + i`.
  unfoldable pub build_bts_system : Result System
  build_bts_system = do
    (qs, s) ← Block.create 0 0 4 cp ip []
    y ← register (FunctionalUnit.block qs) (record empty_system { store = s })
    let x₀ = start sp y
    x₁ ← read_port (codes "read_port_0") sp 0 Direction.north x₀
    x₂ ← read_port (codes "read_port_1") sp 1 Direction.north x₁
    x₃ ← read_port (codes "read_port_2") sp 4 Direction.north x₂
    x₄ ← read_port (codes "read_port_3") sp 5 Direction.north x₃
    x₅ ← write_port (codes "write_port") sp 10 Direction.south 11 Direction.south x₄
    finish x₅

  -- The ports of an array of so many rows and columns: read ports along the north edge, write ports
  -- along the south edge.
  unfoldable pub array_ports : ℕ → ℕ → Draft → Result Draft
  array_ports rows columns x₀ = do
    x₁ ←
        for_range 0 columns
          (λ j x. read_port (codes "read_port_" ++ decimal j) sp j Direction.north x) x₀
    let base = (rows - 1) * columns
    for_range 0 (columns / 2)
        (λ j x.
          write_port (codes "write_port_" ++ decimal j) sp (base + 2 * j) Direction.south
            (base + 2 * j + 1) Direction.south x)
        x₁

  unfoldable pub build_ats_system : ℕ → ℕ → Result System
  build_ats_system rows columns = do
    (ps, s) ← Array.create rows columns cp ip []
    y ← register (FunctionalUnit.array ps) (record empty_system { store = s })
    x ← array_ports rows columns (start sp y)
    finish x

-- tools/qtfs and tools/btfs: `system.processing_elements[i].core.program(programs[i])`. A program is
-- its register values and its instructions.
unfoldable pub load : Numpy → ℕ → List ℤ × List Instruction → System → Result System
load np i g z = do
  p ← get_item z.processing_elements i
  c ← Core.program np g.0 g.1 p.core
  ok (record z { processing_elements = set z.processing_elements i (record p { core = c }) })

-- The loop over the programs; `i` is the enumeration index.
unfoldable pub load_all : Numpy → ℕ → List (List ℤ × List Instruction) → System → Result System
unfolding load
load_all np i [] z = ok z
load_all np i (g ∷ gs) z = load np i g z >>= λ y. load_all np (suc i) gs y
