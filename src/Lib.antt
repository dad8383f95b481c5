-- ===== src/Lib.antt =====
-- Verification of the core of hyprie, a C++ engine for editing and rendering scenes.
--
-- Parts and how they interact. The engine (hpr/runtime) runs a stack of layers (hpr/layer) that
-- exchange events and commands (hpr/event), read input (hpr/input), keep a scene of entities with
-- components (hpr/entity, hpr/scene), load assets into stores that are addressed by handles
-- (hpr/resource), build geometry and trees for ray casts (hpr/procgen), and draw (hpr/render, hpr/ui).
-- The parts that hold the state on which all the others rely are modelled here: the handle stores,
-- the entity registry with its component racks, the asset banks, the command stream, and the chunked
-- tile and voxel fields with their edits; and the algorithms that are easy to get wrong: the lock-free
-- queue and the latch of the job system (hpr/thread), through which the scene layer runs its culling
-- jobs, the stack of layers with its queue of events, and the sort of Morton codes with which the builder of the top-level tree begins.
--
-- Files and code.
--   Base, Base/Tests, Base/Lists, Base/Totals, Base/Int, Base/Bits: shared names; Boolean tests, lists,
--     sums, signed integers and binary digits over the native numbers.
--   Base/Containers, Base/Maps: the contracts `Vault` and `IndexMap` of the metapool library's
--     containers (mtp::vault, mtp::slag, mtp::make_unordered_map), which is a submodule and not part
--     of the repository. Everything below takes an arbitrary implementation of the two as a
--     parameter; `list_vault` and `function_map` meet the contracts.
--   Resource/HandleStore: hpr/resource/handle.hpp and handle_store.hpp. `Handle`, `Slot` (with
--     `construct`, `destruct`, `value`) and `HandleStore` are the classes, `create`, `destroy`, `get`,
--     `deref` (operator[]), `live_count` (size), `capacity`, `destruct_all` (the destructor),
--     `move_construct` and `move_assign` the methods. Children: Inv (the invariant and the map from
--     handles to objects), Create, Destroy, View, Stale (sequences of operations), Teardown.
--   Resource/AssetBank: hpr/resource/asset.hpp and asset_bank.hpp, the named assets over a store.
--   Entity/Rack: `Registry::Rack` of hpr/entity/ecs_registry.hpp and the registry's methods for one
--     component type. Children: Inv, Add, Erase (swap and pop), Each (iteration).
--   Entity/Registry: `Registry` of the same file: creation, destruction and recycling of entity
--     numbers over a list of racks. Children: Racks, Inv, Create, Destroy, Components.
--   Scene/FloorDiv: `math::floor_div` of hpr/core/math.hpp.
--   Scene/Grids, Scene/Tile, Scene/Voxel: the coordinates of hpr/scene/tile_data.hpp, tile_query.hpp,
--     voxel_data.hpp and voxel_field.hpp, with chunk hashes and the places of cells in chunks.
--   Scene/Field: what `TileField` (hpr/scene/tile_field.hpp) and `VoxelField`
--     (hpr/scene/voxel_field.hpp) have in common, over an arbitrary grid: `ensure_chunk`, `find_chunk`,
--     `get`, `set`, `get_ptr`, `clear`. Children: Inv, Located, Get, Set. Scene/Tile/Field and
--     Scene/Voxel/Field are the instances; Scene/Tile/Resize and Scene/Tile/Filled are
--     `TileField::resize`; Scene/Tile/Edit is `TileEditBatch` of hpr/scene/tile_edit.hpp.
--   Event/CommandStream: hpr/event/command_stream.hpp, commands packed into bytes and their reader.
--     Children: Memory (copies of bytes), RoundTrip.
--   Event/EventQueue: hpr/event/event_queue.hpp. Input/Action: hpr/input/action.hpp.
--   Layer/Stack: `LayerStack` of hpr/layer/layer_stack.hpp; a class derived from `Layer` is a record of
--     its virtual methods (`Methods`), which may change the layer and what layers share, push events,
--     and fault.
--     Base/Sequences has the contract `Sequence` of the vector of layers, which is a parameter too.
--     Children: TopDown, Order (the two lists that the vector stands for), Refine, Events (how events
--     reach the layers), Transitions, Actions (`on_actions`, with Steer and Offer).
--     The camera's data is in Scene/CameraController (hpr/scene/camera_controller.hpp); `F` stands
--     for float, and its addition is a parameter.
--   Thread/MpmcRing: `MpmcRing` of hpr/thread/mpmc_ring.hpp. `Pc` is where a thread stands in `push` or
--     `pop`, `Move` an atomic step, `Reach` the states that threads reach in any interleaving from
--     `init`. Children: Slots, Inv (the invariant), Pushing, Writing, Popping, Safety (all
--     steps together), Queue (the abstract queue), Failure (refused calls).
--   Thread/JobLatch: `JobLatch` of hpr/thread/job_latch.hpp in the same form. Child: Wakeup.
--   Procgen/RadixSort: `TlasBuilder::radix_sort_bucket` of hpr/procgen/bvh_tlas.cpp. Children: Counts,
--     Pass (one counting sort), Sorted. Procgen/MeshKeys: the part of `TlasBuilder::build` that calls
--     it. Children: Buckets, Step, Ordered. Procgen/MortonCode: `TlasBuilder::compute_morton_code`, from
--     the coordinates on the grid on, which are below 1024. Child: Interleaved.
--   Tests: the models at concrete inputs.
--
-- Conventions. A method takes the object's state and returns the new one. `none` of an `Option` result
-- is a fault: a failed HPR_ASSERT_MSG, an access out of range, a signed overflow, or a virtual call
-- that faults itself; a pointer result has a `nullptr` of its own. Unsigned arithmetic wraps as written out (`u32`, `u64`). Pointers and
-- references into a container are positions, and pointers into the bytes of a command stream are
-- offsets. Loops are structural recursion on the number of iterations that are left; none has fuel.
--
-- Bounds. Indices of slots and of chunks are uint32_t, and 0xFFFFFFFF is no index, so the theorems ask
-- for room below it. Generations are uint32_t and wrap, so the theorem on stale handles bounds the
-- number of operations. Cells of a field are looked up by a 64-bit hash of the chunk's coordinates
-- without a comparison of the coordinates, so the theorems on fields ask that the chunks in question
-- have different hashes. A command stream is little-endian, and the theorems ask that its capacity is
-- so far below 2^32 that the sum of a size and a record does not wrap. The theorems on the ring ask for
-- a capacity of at least 2, and that the pushes so far and the capacity stay below 2^31, behind which
-- its signed differences overflow.
--
-- Not modelled: floating-point geometry, rendering, windowing, file formats and the user interface; the
-- vendored Tracy profiler; memory management inside the containers; the workers of the scheduler
-- (hpr/thread/scheduler.hpp), whose work-stealing deques are a class of the metapool library; memory
-- orders: atomic operations take effect in one order.
pub mod Base
pub mod Entity
pub mod Event
pub mod Input
pub mod Layer
pub mod Procgen
pub mod Resource
pub mod Scene
pub mod Tests
pub mod Thread
