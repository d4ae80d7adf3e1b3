-- ===== src/Lib.antt =====
-- The functional simulator and the assembler back end of the triggered-instruction infrastructure.
--
-- A spatial array of processing elements runs triggered programs. Each element has a core, which
-- fires in each cycle the first instruction whose trigger holds, and a router, which moves packets
-- between the channel buffers of neighbouring cores. Memories serve requests that arrive in buffers.
-- The event loop lets all elements and then all memories act on the state at the start of the cycle,
-- and commits the staged transactions of every buffer at its end. The assembler back end packs an
-- instruction into the fields of a machine word, and its front end reads one from its text.
--
-- Interconnect: tools/simulator/interconnect.py, packets and buffers; Invariant has the invariant of
--   a buffer and Fifo its refinement to a bounded queue, which a steady consumer drains (Fifo.Drain).
-- Store: the buffers of a system as one list, in which cores, routers, memories and the event loop
--   hold positions: Python shares the objects. Store.Keeps states that a step only stages.
-- Isa: tools/assembly/instruction.py, operations, triggers and instructions as data (Isa), numpy as a
--   parameter (Isa.Numpy) and the functions of the operations (Isa.Ops, one child per family).
-- Core: tools/simulator/core.py, the trigger check and the search (Core), firing and reset
--   (Core.Execute); Guards, Fits, Safety and Cycle hold the proofs.
-- Direction, Router: tools/constants/direction.py, tools/simulator/router.py and
--   tools/simulator/processing_element.py, the software router and its wiring.
-- Array: tools/simulator/array.py; Array.Quartet and Array.Block: tools/simulator/quartet.py and
--   tools/simulator/block.py, the construction and wiring of elements in the plane; Places, Wires,
--   Created and Squares treat what is changed in its place.
-- Router.Create, Placed, Created: the construction of elements with their buffers.
-- Instances: tools/simulator/instances.py, the systems of the test tools, and tools/qtfs and tools/btfs,
--   the loading of programs; Ports, Registers, Systems and Programs hold the proofs.
-- Memory: tools/simulator/memory.py; Ports and Safety treat when a port and a cycle raise.
-- System: tools/simulator/system.py; Commit treats the commit phase, Halt and Run when the loop stops, Memories
--   and Safety a whole cycle and run of elements, routers, memories and buffers, Finalize the order of components.
-- Assembly: tools/assembly/instruction.py again, the reading of an instruction from its text: predicate
--   strings (Predicates), the trigger (Trigger), the statements (Fields), the tokens of a datapath
--   statement (Datapath) and the instruction (Build); tools/assembly/program.py: the lines and
--   instructions of a program (Program), its registers and validation (Registers), its labels (Labels)
--   and macros (Macros).
-- Parameters, MachineCode: tools/parameters, the derived widths, the dictionaries and the
--   validation of the instruction format (Parameters.Validate), and
--   tools/assembly/machine_code.py: the field builders (MachineCode), their loops and enumeration
--   values (Loops, Enums) and the words (Program).
-- Tests: the theorems at concrete inputs.
--
-- Values are naturals: a word is the natural that it stands for, a Python integer a number of
-- Prelude.Int. Python exceptions are the errors of Prelude.Results. numpy is a record of operations
-- whose documented behaviour is IsDocumented; its base-two logarithm is a field of the parameters.
-- The event loop runs on fuel, one unit for each cycle; a system need not halt, so the
-- theorems of System.Run relate the loop to runs of any length. All other loops recur on their data.
--
-- Texts are lists of ASCII code points, with Python's string methods and int in Prelude.Text; eval of
-- an operation's name is a parameter, for tokens for which it gives a member of Op or raises one of the
-- exceptions of Prelude.Results; other attributes of Op are not modelled.
--
-- New buffers come at the end of the store: where an object lies is not visible in Python.
--
-- Regular expressions are scanned from the left by functions of their own.
--
-- Not modelled: hardware tests, YAML files, debug output, interactive use, and the hardware. They are
-- input and output around the modelled code.
pub mod Prelude
pub mod Instances
pub mod Interconnect
pub mod Isa
pub mod Parameters
pub mod MachineCode
pub mod Store
pub mod Core
pub mod Direction
pub mod Router
pub mod Array
pub mod Memory
pub mod Assembly
pub mod System
pub mod Tests
