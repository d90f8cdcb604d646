-- ===== src/Lib.antt =====
-- Bentobox is a simulation engine behind a gRPC service. A client sends the definition of a
-- simulation: entities with components, whose attributes have types, and systems, which are graphs of
-- operations that read attributes and write them. The engine builds the simulation, runs its systems
-- one step at a time, and reads and sets attributes on request.
--
-- The parts of the engine, from below, and the files that model them:
--
-- Base, Std: numbers, lists, integers, equality; unordered_map and unordered_set as lists.
-- Exec: code that reads and writes a state and ends normally, by an exception, or in undefined
--   behaviour. There is one error for each place that throws, and its text is not a part of it. What was
--   written before an exception stays written. Exec/Keeps has the rules for invariants of such code.
-- Core: sim/lib/core. TypeMap holds one value of each type (typeMap.h). CompVec is a vector of
--   components behind ids (compVec.h), which reuses the places of removed components;
--   ComponentStore is one such vector for each group, and the set of the ids in use
--   (componentStore.h, componentStore.cpp), which is listed by a loop over an int: a group with
--   2^31 − 1 components or more overflows it.
-- Index: sim/include/index and sim/src/index. TypeIndex gives each component type its group
--   (ComponentTypeIndex), EntityIndex gives each entity its set of store ids (EntityIndex).
-- Proto: protos/bento/protos as data types (Value, Messages), and sim/include/proto/userValue.h with
--   sim/src/proto/userValue.cpp: the six C++ types of a value (UserValue) and the functions that run
--   code at the type that a value turns out to have (Dispatch). TypeNames has the names of types in
--   messages (sim/src/proto/valueType.cpp).
-- ValueNames: the older copy of these names, sim/src/userValue.cpp.
-- Machine: what C++ and its libraries do that is not in the repository. Floating point, <cmath>,
--   the random numbers and the comparison of two protobuf types are the fields of a record, which
--   the definitions take as a parameter; a float is its bit pattern. Machine/Arith and
--   Machine/Functions have the lambdas of sim/src/interpreter/operations.cpp on integers and
--   floats: integers are exact, and a result out of range is undefined behaviour, as in C++.
-- Component: sim/src/component/userComponent.cpp, the attributes of a component, with the messages
--   that it throws (UserComponent/Messages); Predefined has the component types that the engine
--   defines by itself (sim/include/component).
-- World: sim/include/ics.h and sim/src/ics.cpp, components found by type and entity. The state is the
--   component store, the index store and the count of random numbers drawn.
-- Interp: sim/src/interpreter. Operations has one operation for each kind of node (operations.cpp),
--   Evaluate is evaluateNode and runGraph (graphInterpreter.cpp), Refs makes references (util.cpp).
--   World/Table is what can be seen of a world, as a table of rows, and Interp/Meaning says what nodes
--   and mutations do on such a table; Operators, Agreement, Assigning and Refinement compare the code
--   with it, by the rules of Exec/Matches.
-- Simulation: sim/include/simulation.h, the constructor of a simulation from its definition; Definitions
--   says which definition a name stands for, Placing and Rows what the rows of a new simulation are.
-- Graphics: sim/lib/core/src/graphicsContext.cpp, the cache of textures. OpenGL and stb_image are a
--   parameter, and the calls of OpenGL a list.
-- Windows: sim/lib/core/src/windowContext.cpp, with GLFW as a parameter and its calls as a list.
-- Rendering: SystemContext (sim/lib/core/include/core/systemContext.h), the system that renders
--   (sim/src/system/render.cpp), and the components and systems that sim/src/main.cpp sets up.
-- Service: sim/src/service/engineService.cpp, the calls of the engine on its map of simulations, and
--   sequences of them (Steps, Queries). Contract is what the engine promises, over tables of rows;
--   Holding and Refinement compare the engine with it, and RoundTrip sets and gets attributes.
-- TestSimulation: sim/src/test_simulation.cpp, the simulation that the tests of the engine share.
-- Server: sim/include/network/grpcServer.h and sim/src/network/grpcServer.cpp, the start and the end of
--   the server, with the gRPC library as a parameter.
-- Program: main of sim/src/main.cpp, from its constructors to its destructors, with the set-up in
--   Rendering. What GLFW is called to do, and OpenGL between these calls, is one list; the calls that
--   the textures make are another, and those of the server a third.
-- Examples: a simulation of one counter, and the theorems at concrete inputs.
--
-- State is passed from call to call, and a reference into the state is a read and a write back of the
-- component that it points to. Unordered containers are lists, whose order no theorem speaks of.
-- Loops are structural, but for the search of an unused entity id (fresh_entity_id), which
-- has fuel for two rounds: it only goes on after the id 0, and the id after 0 is 1, and for the
-- digits of a number (Base/Text), which has fuel for the 19 digits of the largest int64.
--
-- The main loop has fuel for its tests, and answers none where that is not enough; n + 1 tests are
-- enough where the window is to be closed after n rounds.
--
-- Not modelled: gRPC and protobuf themselves; the vendored glad and stb_image; calls that run at the
-- same time; the lines that are printed; the Python SDK.
pub mod Base
pub mod Exec
pub mod Std
pub mod Core
pub mod Index
pub mod Program
pub mod Proto
pub mod ValueNames
pub mod Machine
pub mod Component
pub mod World
pub mod Interp
pub mod Simulation
pub mod Windows
pub mod Graphics
pub mod Rendering
pub mod Service
pub mod Server
pub mod TestSimulation
pub mod Examples
