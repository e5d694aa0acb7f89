-- ===== src/Lib.antt =====
-- The client library of the Ommo service: it opens streams of the service over gRPC, keeps what the
-- streams deliver in double buffers, and answers the user's requests from these.
--
-- The parts, from the storages up, and the files of the repository that they model:
--   Buffer, Storage       what both storages share: the double buffer, its writes and its reads;
--   Storage.Device        include/device_data_storage.h, src/device_data_storage.cpp;
--   Storage.BaseStation   include/basestation_data_storage.h, src/basestation_data_storage.cpp;
--   Types                 structs of include/sdk_types.h; Types.Copy, the copies of
--                         src/sdk_types.cpp; Types.Names, the names of its states;
--   Memory                the memory that the structs own: the Destroy functions of src/sdk_types.cpp
--                         (Memory.Destroy), what copies and converters allocate (Memory.Create), and
--                         the memory of src/device_data_storage.cpp (Memory.Storage);
--   Proto, Convert        the messages that src/protobuf_converters.cpp reads, and its converters;
--   Hash                  the hash of a device, src/sdk_utils.cpp;
--   CallData              rpcClientCallData, the six classes of streams that only read
--                         (CallData.Readers), the wireless stream (CallData.Wireless), and the loop
--                         of the completion queue in src/client_manager.cpp (CallData.Queue);
--   WirelessManager       src/wireless_manager.cpp, src/wireless_manager_impl.h and the wrapper;
--   DataManager           include/data_manager.h, src/data_manager.cpp;
--   ClientManager         the devices and requests of src/client_manager.cpp;
--   Monitor               its channel monitor, wireless managers and Shutdown;
--   Service               its calls with one answer;
--   Time                  the text of a time, src/sdk_utils.cpp;
--   BaseStations          the base station requests of src/client_manager.cpp and of
--                         src/client_context.cpp;
--   ClientContext         the tags of src/client_context.cpp and src/client_context_impl.h, and the
--                         way of a packet to the answers by tag (ClientContext.Delivery);
--   Prelude               shared names, finite maps and list lemmas;
--   Tests                 the theorems at concrete inputs.
--
-- A client context gives each request a tag and a data manager. The client manager opens the streams
-- of the data managers as devices are reported. The completion queue moves each stream's call data
-- object on; its handler is the update function of the data manager, which pushes a packet into the
-- storage under the hash of the packet's device. The reads of the user go from the tag to the data
-- manager to the storage.
--
-- Conventions. An operation of an object takes the object's value and gives the new one; its name
-- is that of the function, in lower case. An array with its count is a list. Where the code would
-- go out of an array, overflow an `int32_t` or compute a negative array size, the result is
-- `none`; that no such fault happens is part of the theorems. Counters of 32 bits wrap (`u32`,
-- `sub32`). A size is at most 2^30 in the invariant of the storages, so that a sum of two counts
-- is an `int32_t`, and the theorems go as far as 2^32 packets, where `packet_idx` wraps. The fuel
-- of DataManager.Streams.remove_loop and of BaseStations.close_loop is the number of rounds of a
-- loop of the code that need not end; that of Monitor.delete_loop is enough when it exceeds the
-- length of the list. Only that list shares in a wireless manager, since the user is given a plain
-- pointer, so to erase it there destroys it. Floats, signed fields that are only moved, and open
-- enums are numbers: their bit patterns. Callbacks, call data objects and shared pointers are
-- known by numbers, and what is called or cancelled is a result. An operation under one lock is
-- one step; Storage.Device.Race is about the one place where a storage is seen in between.
--
-- gRPC is not part of the repository. It is the sequence of events that the completion queue
-- reports, any sequence in which an event reports an outstanding operation.
--
-- In Memory a heap is the list of the blocks that are allocated, and to delete a block that is not
-- allocated is a fault; that an allocation fails is not modelled. The other modules have values.
-- In Monitor a round of the channel monitor is one step, but for the lock that it shares with
-- Shutdown (Monitor.Shutdown.Deadlock); a null channel, which gRPC does not give, is left out.
-- ClientManager.Racing is about two threads in one operation of a data manager.
--
-- Not modelled: logging, the start of the threads and a start after a Shutdown, the functions of
-- src/client_context.cpp that only forward, and interleavings inside an operation other than those
-- above.
pub mod Prelude
pub mod Buffer
pub mod Types
pub mod Proto
pub mod Convert
pub mod Hash
pub mod Storage
pub mod CallData
pub mod DataManager
pub mod WirelessManager
pub mod ClientManager
pub mod ClientContext
pub mod Tests
pub mod BaseStations
pub mod Memory
pub mod Monitor
pub mod Time
pub mod Service
