-- ===== src/Lib.antt =====
-- CL k-Means: a verification library for the host code of the k-Means implementation.
--
-- The program reads points, keeps them and their labels in objects on the host, cuts the objects
-- into buffers, and runs kernels on an OpenCL device over one buffer at a time. The buffer cache
-- (simple_buffer_cache.cpp) keeps copies of the buffers on the device, locks them while a kernel
-- runs, and writes changed ones back. The single-device scheduler (single_device_scheduler.cpp)
-- walks over the buffers and calls the kernels.
--
-- The files.
--
-- Prelude and its children: names of the libraries that the other files share, lists indexed by
-- native numbers, and `Ensures P o`, which says that `P` holds of the result of a partial function
-- wherever there is one, and `Gives P o`, which says that there is one too.
--
-- Cache models buffer_cache.hpp, simple_buffer_cache.hpp and simple_buffer_cache.cpp.
-- Cache.State is the state: the devices with their slots, the objects, the tasks handed to the I/O
-- threads, and the commands enqueued on OpenCL queues. Cache.Setup has the constructor,
-- `add_device`, `add_object` and `object`; Cache.Find the private lookups and `pool_size`;
-- Cache.Lock `try_read_lock`, `try_write_lock` and `unlock`; Cache.Transfer `read`,
-- `evict_cache_slot`, `write_and_get` and `get`. Cache.Slots, Cache.Lookup, Cache.Writes and
-- Cache.Store are lemmas on these. Cache.Protocol is the specification: a step relation on one
-- slot. Cache.Effect shows that each access makes at most one step of one slot. Cache.Calls has
-- histories of calls. Cache.Locked, Cache.Valid, Cache.History, Cache.Defined, Cache.Fill,
-- Cache.Total, Cache.Contents, Cache.Answers, Cache.Hit and Cache.Errors draw the conclusions, and
-- Cache.Tests has runs and instances.
--
-- Cache.IoThread is the queue of tasks of an I/O thread, in which the calls of the thread and of
-- its callers are turns in any order.
--
-- Scheduler models device_scheduler.hpp, single_device_scheduler.hpp and
-- single_device_scheduler.cpp. Scheduler.State is the interface of a buffer cache that the
-- scheduler calls, and the state; Scheduler.Active has `RState`; Scheduler.Runnables the unary and
-- the binary runnable; Scheduler.Run `enqueue` and `run`. Scheduler.Parts is about the parts of an
-- object. Scheduler.Contract is what the scheduler relies on; Scheduler.Activation,
-- Scheduler.Launches, Scheduler.Passes, Scheduler.Rounds and Scheduler.Complete follow `run` from
-- its inner to its outer loops. Scheduler.Simple shows that Cache keeps the contract.
--
-- Kmeans models matrix.hpp in Kmeans.Matrix and kmeans_initializer.cpp in Kmeans.Initializer and
-- kmeans_naive.cpp in Kmeans.Naive, over an abstract arithmetic. Kmeans.Order has the orders of
-- nested loops, and Kmeans.Labels is about phase 1 of the algorithm.
--
-- Partition models buffer_helper.cpp: Partition.Helper is `partition_matrix`, and Partition.Bounds
-- shows where it reads and writes.
--
-- Measurement models measurement.hpp and measurement.cpp: Measurement.Points is the class
-- `DataPoint`, Measurement.Series the class `Measurement`, Measurement.Files the rows of
-- `write_csv` and `get_execution_times_by_name`. Measurement.Totals, Measurement.Flattened,
-- Measurement.Visits, Measurement.Times and Measurement.Parameters are about these. OpenCL's answers about events are
-- a parameter, and so is the order of the names. In these files `none` is also an exception.
--
-- Dataset models `generate_bin` of cluster_generator.cpp in Dataset.Generator and
-- binary_format.cpp in Dataset.Format; Dataset.Bytes has the bytes of numbers. Dataset.Counts,
-- Dataset.Written and Dataset.Reading lead to Dataset.RoundTrip. The random engine and the addition
-- of floats are a parameter; a float is known by its four bytes.
--
-- Csv models csv.hpp: Csv.Tokens is the tokenizer and Csv.Files `parse_line` and `read_csv`.
-- Csv.Scanning and Csv.Lines are about one line, Csv.RoundTrip about a file. A pointer into the
-- mapped file is the list of characters from there on, and a read past it is undefined. The fuel
-- of the loops over a file is its length and one more: each round but the last takes a character.
-- The loop of `get_datapoints_with_events` has the number of all points and one more.
--
-- Driver models the loop of kmeans_three_stage_buffered.hpp in Driver.Buffered, over the scheduler;
-- Driver.Sizes, Driver.Calls and Driver.Iterations are about it. What it does on the device is a
-- list of steps. Driver.Labels has the reads of the labels at the end; each round but the last
-- moves on by a byte at least, so the fuel is the size of the labels and one more.
--
-- ThreeStage models kmeans_three_stage.hpp: ThreeStage.BufferMap is the class `BufferMap`, which
-- keeps for each phase a pointer to a vector, and ThreeStage.Run the method `run`. What the kernels
-- compute and what a new vector holds are parameters, and so is what `sync_labels` does where it
-- maps a vector of a CPU and where it waits for a future that was not assigned. The commands take
-- place in the order in which they are enqueued, which is what OpenCL does on one queue; the
-- theorem on the results is for one queue, since the source lets no command wait for another
-- queue's. ThreeStage.Lloyd is the algorithm on one set of vectors; ThreeStage.Copies and
-- ThreeStage.OneQueue lead from one to the other, and ThreeStage.Initializer is about the
-- initializer on different queues.
--
-- SingleStage models kmeans_single_stage.hpp in the same way: SingleStage.BufferManager is the class
-- `BufferManager`, SingleStage.Run the method `run`, SingleStage.Stages and SingleStage.SameResult
-- are about them. ThreeStage.Sample and SingleStage.Sample have kernels and points for the instances.
-- The drivers count iterations with `uint32_t` against a `size_t`: Prelude.Loops has such a loop, on
-- fuel that is the number of rounds asked for, and shows that it is enough below 2^32.
--
-- AbstractKmeans models abstract_kmeans.hpp, the base class of the drivers, in AbstractKmeans.State;
-- AbstractKmeans.Calls is about the calls of a driver, AbstractKmeans.Setters about the order of the
-- setters.
--
-- Device models kernels and the classes that enqueue them. Device.Buffers has buffers and the
-- work-items of a kernel; a work-item is run as a whole between two barriers, and the rounds of
-- the counting loops one at a time, in any order. Device.Reduce is reduce_vector_parcol.hpp and
-- reduce_vector_parcol.cl, over any addition (Device.Sums); Device.Halving, Device.Rounds,
-- Device.Rows, Device.Reduction and Device.OddRows are about it. Device.Histogram is
-- histogram_global.cl and histogram_part_global.cl, Device.MassUpdate is
-- mass_update_global_atomic.hpp, mass_update_part_global.hpp and the method `matrix` of
-- matrix_binary_op.hpp; Device.Owners, Device.Turns, Device.Strides, Device.Cleared,
-- Device.Totals, Device.MatrixOp, Device.Masses and Device.PartMasses are about them. The fuel of a
-- loop is the number of values it may meet and one more; the counting loops have as many rounds as
-- they are given, and each work-item needs one for each point at most. A failed assertion is
-- `none`, and so is an access out of the bounds of a buffer.
--
-- Utility models `is_power_of_two` of utility.hpp, with the operator `&` on integers of w bits.
--
-- Conventions. A function returns the return code, the out-parameters and the new cache. `none` is
-- undefined behaviour: an index out of the bounds of a vector. What a read of
-- `object_info_i[-1].mode` gives, which `evict_cache_slot` makes for an empty slot, is the field
-- `before_objects` of the cache: `none` where the read fails. Return codes are signed integers.
-- `size_t` and `uint32_t` arithmetic wraps where the source computes with values that may pass the
-- width. The vectors of a device's slots, which `add_device` resizes together, are one list of
-- slots. OpenCL devices and queues are known by their ids; a buffer is known by the handle under
-- which it was allocated, and an event by the number of the command that it stands for. The
-- address at which OpenCL maps a pinned buffer is a parameter, and so is the event that a kernel
-- function returns: kernels are code of the scheduler's callers. The loops of `run` are recursions
-- on the list or the number of rounds, without fuel.
--
-- Not modelled: the OpenCL contexts, the `DataPoint` arguments and the messages on `std::cerr`,
-- which do not change what a call does otherwise; the kernels under cl_kernels and their wrappers
-- but for those named above;
-- the buffered single-stage driver and what the buffered three-stage one sets up and copies back;
-- the setters of the drivers that only store their argument; `generate_matrix` and
-- `generate_csv`; `log2`, a builtin of the compiler, and the mean squared error, which is on
-- doubles; the parser of configurations and the command lines; the clock and the names of files.
pub mod AbstractKmeans
pub mod Cache
pub mod Csv
pub mod Dataset
pub mod Device
pub mod Driver
pub mod Kmeans
pub mod Measurement
pub mod Partition
pub mod Prelude
pub mod Scheduler
pub mod SingleStage
pub mod ThreeStage
pub mod Utility
