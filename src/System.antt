-- ===== src/System.antt =====
-- tools/simulator/system.py: the event loop over processing elements, memories and buffers. The
-- store stands for all buffer objects; `buffers` lists the registered ones. Debug output, the
-- interactive prompt and interrupts are left out.
pub mod Commit
pub mod Halt
pub mod Run
pub mod Memories
pub mod Safety
pub mod Finalize
use tia_infrastructure.Prelude.{
  ℕ, zero, suc, ◌+◌, Bool, true, false, ◌&&◌, if◌then◌else◌, Option, none, some, List, [], ◌∷◌,
  ◌++◌, Result, ok, err, ◌>>=◌, get_item,
}
use tia_infrastructure.Interconnect.{is_empty}
use tia_infrastructure.Store.{Store, commit_at, empty_at}
use tia_infrastructure.Isa.Numpy.{Numpy}
use tia_infrastructure.Core.{Core}
use tia_infrastructure.Core.Execute.{reset_refs}
use tia_infrastructure.Router.{ProcessingElement, iterate_element, reset_element}
use tia_infrastructure.Memory
use tia_infrastructure.Memory.{Memory, ReadPort, WritePort}

pub record System : Type 0 where
  pub cycle : ℕ
  pub processing_elements : List ProcessingElement
  pub memories : List Memory
  pub buffers : List ℕ
  pub store : Store

-- `ProcessingElement._register`, with `Core._register` and the empty `Router._register`.
unfoldable pub register_element : ProcessingElement → System → System
register_element pe y = record y {
  buffers = y.buffers ++ (pe.core.input_channel_buffers ++ pe.core.output_channel_buffers);
  processing_elements = y.processing_elements ++ (pe ∷ []);
}

abbrev pub read_port_refs : List ReadPort → List ℕ
read_port_refs [] = []
read_port_refs (p ∷ ps) = p.addr_in_channel_buffer ∷ p.data_out_channel_buffer ∷ read_port_refs ps

abbrev pub write_port_refs : List WritePort → List ℕ
write_port_refs [] = []
write_port_refs (p ∷ ps) = p.addr_in_channel_buffer ∷ p.data_in_channel_buffer ∷ write_port_refs ps

-- `Memory._register`
unfoldable pub register_memory : Memory → System → System
register_memory m y = record y {
  memories = y.memories ++ (m ∷ []);
  buffers = y.buffers ++ (read_port_refs m.read_ports ++ write_port_refs m.write_ports);
}

module _ (np : Numpy) (keep : Bool) where
  unfoldable pub iterate_elements :
      List ProcessingElement → Store → Result (List ProcessingElement × Store)
  iterate_elements [] s = ok ([], s)
  iterate_elements (p ∷ ps) s = do
    (q, s₁) ← iterate_element np keep p s
    (qs, s₂) ← iterate_elements ps s₁
    ok (q ∷ qs, s₂)

-- `halt &= processing_element.core.halt_register`
unfoldable pub all_halted : List ProcessingElement → Bool
all_halted [] = true
all_halted (p ∷ ps) = p.core.halt_register && all_halted ps

unfoldable pub iterate_memories : List Memory → Store → Result (List Memory × Store)
iterate_memories [] s = ok ([], s)
iterate_memories (m ∷ ms) s = do
  (n, s₁) ← Memory.iterate m s
  (ns, s₂) ← iterate_memories ms s₁
  ok (n ∷ ns, s₂)

-- "Commit all pending buffer transactions"; the flag says whether each is empty after its commit.
unfoldable pub commit_buffers : List ℕ → Store → Result (Bool × Store)
commit_buffers [] s = ok (true, s)
commit_buffers (r ∷ rs) s = do
  s₁ ← commit_at r s
  nothing ← empty_at r s₁
  (rest, s₂) ← commit_buffers rs s₁
  ok (nothing && rest, s₂)

module _ (np : Numpy) (keep : Bool) where
  unfoldable pub iterate : System → Result (Bool × System)
  iterate y = do
    (pes, s₁) ← iterate_elements np keep y.processing_elements y.store
    (ms, s₂) ← iterate_memories y.memories s₁
    (drained, s₃) ← commit_buffers y.buffers s₂
    let halt = all_halted pes && drained
    ok (
      halt,
      record y {
        cycle = if halt then y.cycle else y.cycle + 1;
        processing_elements = pes;
        memories = ms;
        store = s₃;
      },
    )

  -- `run`, not interactive, for at most `fuel` cycles: `none` when the fuel runs out.
  unfoldable pub run : ℕ → System → Result (Option System)
  run zero y = ok none
  run (suc fuel) y = iterate y >>= λ r. elim r.0 [ true ↦ ok (some r.1) | false ↦ run fuel r.1 ]

unfoldable pub reset_processing_elements :
    List ProcessingElement → Store → Result (List ProcessingElement × Store)
reset_processing_elements [] s = ok ([], s)
reset_processing_elements (p ∷ ps) s = do
  (q, s₁) ← reset_element p s
  (qs, s₂) ← reset_processing_elements ps s₁
  ok (q ∷ qs, s₂)

unfoldable pub reset_memories : List Memory → Store → Result (List Memory × Store)
reset_memories [] s = ok ([], s)
reset_memories (m ∷ ms) s = do
  (n, s₁) ← Memory.reset m s
  (ns, s₂) ← reset_memories ms s₁
  ok (n ∷ ns, s₂)

-- `reset`; `reset_buffers` resets every registered buffer. The cycle count stays.
unfoldable pub reset : System → Result System
reset y = do
  (pes, s₁) ← reset_processing_elements y.processing_elements y.store
  (ms, s₂) ← reset_memories y.memories s₁
  s₃ ← reset_refs y.buffers s₂
  ok (record y { processing_elements = pes; memories = ms; store = s₃ })
