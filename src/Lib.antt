-- ===== src/Lib.antt =====
-- rlc finds memory leaks at the border of Rust's ownership. For every body it walks the MIR blocks in
-- topological order and keeps, for each local, a bit vector with one bit per field that says whether
-- the field owns heap memory. Each statement asserts to z3 how the bits of its two sides change; at
-- the end of a body everything but the arguments must own nothing.
--
-- The parts, and where they are modelled:
--   Ownership       src/analysis/type_analysis/ownership.rs: RawTypeOwner, OwnershipLayoutResult
--   Bits            the bit vectors of src/analysis/flow_analysis/intro_visitor.rs on the Rust side:
--                   ownership_layout_to_rustbv and its reverse, rustbv_merge, rustbv_to_int
--   TypeVisitor     src/analysis/type_analysis/type_visitor.rs: TyWithIndex; the child modules have
--                   the visitors: RawGeneric (with RawGenericFieldSubst), Propagation
--                   (RawGenericPropagation and OwnerPropagation), FindPtr, DefaultOwnership, which
--                   the flow analysis runs on each field type, and Collector, which walks the bodies
--                   of the crate and records its types; Phases has the four passes of
--                   TypeAnalysis::visitor that fill adt_owner for the recorded types, and Total what
--                   the proofs about the visitors share
--   Projection      extract_projection and ProjectionSupport
--   Slice           src/analysis/flow_analysis/ownership.rs and the contexts of
--                   src/analysis/flow_analysis.rs: Taint, IntroVar, the five vectors of a block, and in
--                   Context the vectors before and after each block (IntroFlowContext)
--   Layout          extract_default_ty_layout, generate_ptr_layout, is_place_containing_ptr
--   Order           Graph, and collect_edges and topo_order of src/analysis/flow_analysis/order.rs
--   Flow            the handlers of IntroFlowAnalysis: Assign (handle_copy, handle_move and the two
--                   from a field), Fields (the four into a field), Drop (handle_drop, handle_return),
--                   Call (handle_call and its two checks), Merge (preprocess_for_basic_block) and
--                   Blocks (visit_body down to visit_assign); Terms has the guards and terms that they
--                   repeat, Meaning what those terms are in a model
--   Cargo           src/bin/cargo-rlc.rs: Args (flags and their values), Targets (the kinds of targets
--                   and their order) and Phases (phase_preprocess, phase_cargo_rlc, phase_rustc_rlc and
--                   main); what the program does is the list of the processes it starts, with how it
--                   ends
--   Driver          src/bin/rlc.rs and the configuration of src/lib.rs: config_parse and the arguments
--                   that the compiler is started with
--   Tests           concrete inputs
--
-- How they interact: cargo-rlc builds a `cargo check` for each target, cargo calls cargo-rlc back in
-- place of rustc, and that call runs rlc, with the arguments it finds in RLC_ARGS, or rustc. rlc takes
-- its options out of the arguments and starts the compiler, which calls the two analyses: the type
-- analysis fills adt_owner, which the flow analysis reads.
--
-- The files of the model's own: Prelude has the shared names, lists on native numbers and Boolean
-- tests; Run the outcome of code that may panic; State the state that a handler passes on. Rustc is
-- the compiler's types and MIR as far as the analysis looks at them, and Rustc/Shape what the compiler
-- guarantees of the types of a crate. The kinds of types that the code names hold all that rustc's do
-- (mutability, length, width, region), since the recorded types of locals are compared.
--
-- Not of this repository, hence parameters: the queries to the compiler (the records Tcx of Rustc and
-- MirQueries of the collector), what surrounds a call of cargo-rlc (the record World of Cargo: its
-- arguments, variables, child processes, serde_json and the answer of make_package, which asks
-- cargo_metadata), the variables of the build (BuildEnv of Driver), and z3's terms (the record Z3,
-- with their documented meaning in the record Laws). Z3/Ast has a syntax
-- tree with an evaluator, as a value of both. `_eq` is read as its documentation says, as
-- `_safe_eq(..).unwrap()`.
--
-- Bounds and fuel. Machine words: rustbv_to_int computes modulo 2 ^ 64, as a release build does; the
-- one subtraction that can fall below zero (a length minus one) is a panic; lengths fit in the `u32`
-- that they are cast to. The visit of a type takes one unit of fuel for each nesting; how
-- much is enough hangs on a rank of types, the subject of Layout.Ends; where the visits go through
-- fields, on the definitions that are not yet in `unique`, or the types not yet met, as well.
-- The walk over the bodies takes one unit for each nesting of calls; how much is enough hangs on the
-- number of functions with a body, the subject of TypeVisitor.Collector.Visits.
-- topo_loop takes one unit for each block that it pops, and order gives it as many as there are
-- blocks, the subject of Order.Topo.
-- All else is structural recursion.
-- A HashSet is a list without repetitions, a BinaryHeap a descending list, and the names of constants
-- are lists of code points.
--
-- The order in which a HashSet is iterated is a parameter of the collector.
--
-- Not modelled: the call graph, which reads files that another program writes; the LLVM phase of
-- cargo-rlc, which main does not call; the callbacks that rlc registers with the compiler;
-- logging, display, files and timing; the inter-procedural analysis, which only starts; the kind of an
-- assignment, which no handler reads, and the answer of the solver, which the code does not use. The
-- C++ program in phase_llvm is a separate tool.
pub mod Prelude
pub mod Run
pub mod State
pub mod Rustc
pub mod Ownership
pub mod Bits
pub mod TypeVisitor
pub mod Z3
pub mod Projection
pub mod Slice
pub mod Layout
pub mod Order
pub mod Flow
pub mod Cargo
pub mod Driver
pub mod Tests
