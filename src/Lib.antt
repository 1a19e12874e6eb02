-- ===== src/Lib.antt =====
-- A model of elastic training in Horovod, its control plane and its workers, and what is proved of
-- it.
--
-- The launcher's driver finds hosts, gives every process a slot with its ranks, starts the
-- processes, learns from each whether it is ready, has succeeded or has failed, and starts over
-- when hosts come, go or fail. Its parts, each a module, from the bottom up:
--   Hosts       horovod/runner/common/util/hosts.py: get_host_assignments, with its dictionaries
--               (Hosts/Assign) and as it is specified, without them (Hosts/Spec);
--               the strings of hosts and host files that are parsed (Hosts/Parse);
--   Worker      horovod/runner/elastic/worker.py: the flags of HostUpdateResult, and
--               WorkerNotificationManager, which tells the states of hosts (Worker/Manager);
--               the client of the driver for a worker, from horovod/runner/common/util/network.py
--               (Worker/Client);
--   Discovery   horovod/runner/elastic/discovery.py: HostState, DiscoveredHosts, HostManager;
--   Registry    horovod/runner/elastic/registration.py: WorkerStateRegistry and its barrier;
--   Rendezvous  horovod/runner/http/http_server.py: the store of the rendezvous server;
--   Driver      horovod/runner/elastic/driver.py: ElasticDriver, which uses all of these;
--   ElasticRendezvous  horovod/runner/elastic/rendezvous.py: the handler of the rendezvous server, by
--               which a worker asks the driver for its rank and gives it its addresses.
-- A job that runs in Spark or Ray has a driver of its own:
--   DriverService  horovod/runner/common/service/driver_service.py: BasicDriverService, where the
--               tasks register;
--   Spark       horovod/spark: SparkDriverService on top of it, the discovery of its hosts, and the
--               order in which run takes them;
--   Ray         horovod/ray/runner.py: Coordinator, with the plan of Hosts for the same nodes.
-- On the side of a worker:
--   Elastic     horovod/common/elastic.py: the state that is saved, restored and synchronised, the
--               check for host updates, and the loop of run_fn;
--   Sampler     horovod/torch/elastic/sampler.py: ElasticSampler;
--   TorchElastic  horovod/torch/elastic/state.py: TorchState over Elastic and Sampler, and the
--               synchronisation of the samplers of all workers;
--   Optimizer   horovod/torch/optimizer.py: the hooks and handles of _DistributedOptimizer;
--   Aggregation  horovod/tensorflow/gradient_aggregation.py and gradient_aggregation_eager.py
--               (Aggregation/Eager): gradients that are added up before they are reduced;
--   DataLoader  horovod/data/data_loader_base.py: the thread that loads batches into a bounded queue,
--               and the iteration that takes them;
--   Util        horovod/common/util.py: the environment, the cache and the lists of chunks;
--   ProcessSets horovod/common/process_sets.py: the objects of process sets and their numbers.
-- Common holds what they share: dictionaries as association lists in the order of insertion
-- (Common/Dict), keys with their equality, lists measured by native numbers, Boolean tests.
--
-- A function of the model has the name of the method it stands for, without leading underscores and
-- in lower case (do_GET is do_get). An object is a record that its methods take and return. An
-- exception is a constructor of the module's Result, or of a type of answers.
--
-- Threads are not run: a method that locks is one step, and a method that waits is cut where it
-- waits. A report to the registry is record_state, then join at the barrier, then wake when the
-- barrier was reset; Registry/Report runs them as one step, Registry/Race puts another thread
-- between the first two. The data loader runs its two threads in any order, a call of `put` or
-- `get` each a step that waits. wait_for_available_slots is given what it sees at each wake-up, and
-- the discovery thread what it finds in each turn, with no other thread between. What the
-- coordinator of the workers broadcasts is an argument of the methods that receive it.
--
-- Bounds: numbers are natural and unbounded, as in Python; a negative number of slots, which the
-- code would treat as none in `range`, is read as 0. Every loop of the code is structural in a list
-- or in a number but two: the loop that shifts the hosts of a Spark job runs on fuel, and as much
-- fuel as there are hosts before the one looked for is enough (Spark/Shift); the thread of the data
-- loader is run step by step, and after the closing five steps are enough where it ends
-- (DataLoader/Close). The order in which Python iterates over a set of hosts is a parameter of the
-- discovery, and the shuffling by random.Random(seed) one of the sampler, with the hypothesis that
-- it keeps the items and their number. A threading.Event is an object with a number of its own;
-- those that have been set are recorded. Values of attributes are references to objects.
-- TorchElastic has a memory of these objects, so that a deep copy differs from a live state
-- dictionary; what PyTorch makes of tensors that it loads is a parameter. Which addresses answer a
-- client is a parameter too. Tensors are a parameter of Aggregation and only named by numbers in
-- Optimizer, which keeps the order in which gradients are handed to the reduction; the reduction is
-- a parameter.
--
-- Not modelled: the network, logging, time, the starting of processes and threads, and the classes
-- that find hosts, because they are input and output; the training frameworks' bindings and the
-- collective operations, which are in other languages or call them. A number in a text is a row of
-- decimal digits: the sign, the white space and the underscores that `int` takes too are errors in
-- the model.
pub mod Aggregation
pub mod Common
pub mod DataLoader
pub mod Discovery
pub mod Driver
pub mod DriverService
pub mod Elastic
pub mod ElasticRendezvous
pub mod Hosts
pub mod Optimizer
pub mod ProcessSets
pub mod Ray
pub mod Registry
pub mod Rendezvous
pub mod Sampler
pub mod Spark
pub mod TorchElastic
pub mod Util
pub mod Worker
