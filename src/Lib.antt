-- ===== src/Lib.antt =====
-- libstoragemgmt: a client calls the methods of a plugin over a socket, and the plugin manages a storage
-- array. These parts are modelled. The simulated array, plugin/sim_plugin/simarray.py, keeps pools,
-- volumes, access groups, file systems, exports and jobs in a SQLite file, and serves each management
-- call in a transaction on it. The Python binding, python_binding/lsm, carries the calls: _data.py
-- writes and reads the objects, _transport.py frames the messages, _client.py makes the calls, _pluginrunner.py runs a plugin. Of the
-- command line, the checks of block ranges and of addresses and the wait for a job are modelled, and
-- of the plugin for HP Smart Array how it cleans the output of its tool.
--
-- The parts and the files that model them. The code is plugin/sim_plugin/simarray.py where no other
-- file is named.
--   Base, Base/*          numbers, integers, lists and Boolean tests that the parts share
--   Doubles               Python's floats from 0 on, for the progress of a job
--   Sql, Sql/*            SELECT, UPDATE and DELETE on a table as a list of rows, and the lemmas on
--                         keys, references and sums of columns
--   Text, Text/*          str, zfill, int and hexadecimal digits, as Python has them
--   Data/Value            Python values and objects of the data classes of python_binding/lsm/_data.py
--   Data/Initiators       AccessGroup.initiator_id_verify and _wwpn_to_lsm_type of the same file
--   Data/Params, Data/Classes  the constructors of its classes: `construct c kwargs` is `c(**kwargs)`
--   Data/Codec, Data/Codec/*  DataEncoder (`plain`), DataDecoder (`decode`), IData._factory
--   Ipc/Raised, Ipc/Utf8  exceptions, and UTF-8
--   Ipc/Transport, Ipc/Transport/*  class TransPort of python_binding/lsm/_transport.py: _read_all,
--                         _recv_msg and _send_msg on a socket
--   Ipc/Messages, Ipc/Messages/*  its send_req, read_req, rpc, send_error, send_resp and read_resp
--   Ipc/Runner, Ipc/Runner/*  PluginRunner.run of python_binding/lsm/_pluginrunner.py: `step` is one
--                         round of its loop, `handle`, `escape` and `clean_up` its handlers
--   Client, Client/*      class Client of python_binding/lsm/_client.py: a method is the remote call that it
--                         makes, or the exception of its checks (Guards); Expected is return_requires
--                         of _common.py, Requests any call of the client
--   Sim/Plugin, Sim/Plugin/*  class SimPlugin of plugin/sim_plugin/simulator.py: its methods and parameters,
--                         and its listings with search_property of _pluginrunner.py (Search)
--   Cmdline, Cmdline/*    tools/lsmcli/cmdline.py: the ranges of volume_replicate_range, and their check
--                         for overlaps, `check_overlap`; _wait_for_it (Waiting), on the simulated array in
--                         Waiting/Simulated; the checks of addresses and host names (Address)
--   Hpsa, Hpsa/*          _sanitize_output of plugin/hpsa_plugin/hpsa.py
--   Data/Tests, Ipc/Tests, Client/Tests, Cmdline/Tests, Hpsa/Tests  examples on a socket, a codec and a plugin
--   Common                ErrorNumber and LsmError of python_binding/lsm/_common.py
--   Sim/Constants         constants of python_binding/lsm/_data.py and of simarray.py
--   Sim/Tables            the tables that BackStore.__init__ creates: `Db` has one list per table
--   Sim/Exec              a method that reads and changes the tables and may raise
--   Sim/Cascade           rows looked up by id, inserted, and deleted with what refers to them
--                         (FOREIGN KEY ... ON DELETE CASCADE)
--   Sim/Raid              class PoolRAID
--   Sim/Ids               ids as the views print them, and SimArray._lsm_id_to_sim_id
--   Sim/Pools             pools of BackStore and the columns of pools_view
--   Sim/Volumes           volumes of BackStore: sim_vol_create, sim_vol_delete, sim_vol_resize, ...
--   Sim/Groups            access groups and initiators of BackStore
--   Sim/Masks             sim_vol_mask and sim_vol_unmask
--   Sim/Filesystems       file systems, snapshots and clones of BackStore
--   Sim/Exports           NFS exports of BackStore
--   Sim/Jobs              jobs of BackStore
--   Sim/Array, Sim/Array/*  class SimArray: the connection, _handle_errors and transactions
--                         (Session), the methods on volumes, groups, file systems, jobs, RAID and the
--                         read cache of the system (Systems), and the listings
--   Sim/Exec/Keeps, Sim/Sound, Sim/Sound/*  the invariant of the state file: what each operation keeps
--                         (Frame, Volumes, Filesystems), transactions, the methods (Bodies, Calls), and
--                         sequences of requests
--   Sim/Start, Sim/Start/*  check_version_and_init and SimArray.__init__: a new state file, and what calls
--                         on it lead to
--   Sim/Tests, Sim/Tests/*  examples on a small array
--
-- How they interact. A method of SimArray reads the ids that it is given (Sim/Ids), begins a
-- transaction, calls methods of BackStore, and commits; `_handle_errors` turns an exception into an
-- LsmError and rolls back. An operation of the model has the name and the argument order of the
-- method, takes the tables (`Exec`) or the connection (`Action`) last, and gives a result, `ok` or
-- `err`, with what it leaves.
--
-- A plugin runner reads a request (Ipc/Transport, then json, then Data/Codec), calls the plugin's method
-- and sends its answer the same way; `rpc` is the client's side. An operation on a socket takes the
-- socket's state last and gives an `Outcome` with the state that it leaves.
--
-- What stands for code that is not of the repository. The socket (`Socket`), json (`Json`) and the
-- plugin (`Plugin`) are records of functions that the operations take. `IsStream` and `IsConnected`
-- say what recv(2) and send(2) document, that bytes come in order and in pieces of any size, and
-- `Travels` says of one message that json reads back what it wrote, in ASCII. SQLite is modelled by its
-- documented behaviour
-- on the statements that the code builds: rows in the order of insertion, a new id one over the
-- largest, PRIMARY KEY, UNIQUE and FOREIGN KEY, group_concat in the order of the rows. A negative id
-- matches no row. The lock of BEGIN IMMEDIATE is a field of the connection, and so is whether another
-- connection reads the file, where COMMIT fails; the clock, the duration of a job and the text of
-- _random_vpd() are arguments. Times are floats, as multiples of 2^-1074 seconds, each operation on them
-- rounded to the nearest; the time that a job is stored with reads back as it was. Python's int() is modelled on ASCII texts.
--
-- Bounds and fuel. Python's integers have no width; sizes are integers of any sign, as the code never
-- refuses a negative size, and the limit of 64 bits that SQLite has is not modelled. `decimal` prints
-- n with fuel n + 1, which is enough as every step divides by ten. `read_loop` has a round for each byte
-- that is wanted, which is enough as a round that goes on adds one. `run` takes the number of rounds;
-- a session of n requests ends in n. `rounded n` divides a number up to n, and each
-- round doubles the divisor, so n rounds are enough. `rounds` takes the number of polls, and `sanitize` has a round for
-- each line, which is enough as every round takes a line.
--
-- Not modelled: the texts of error messages and the `flags` arguments, which the code ignores; texts
-- that hold a quote, which would break the statements that the code builds; the conversions of access
-- groups, exports, snapshots and job results into objects of the binding; volume_cache_info and
-- iscsi_chap_auth of the array, neither of which changes the file; the bodies of SimPlugin that only pass a call on; of the binding
-- Client.__init__, available_plugins, get_socket, PluginRunner.__init__, the log, the texts that tell
-- exceptions of one kind apart, and class names that are other names of the module _data; of the
-- plugin for HP Smart Array all but the reading of lines; the other plugins, which drive external tools
-- and services, the rest of the command line, which parses with
-- argparse and prints, and the C code.
pub mod Base
pub mod Text
pub mod Sql
pub mod Common
pub mod Data
pub mod Doubles
pub mod Ipc
pub mod Cmdline
pub mod Hpsa
pub mod Client
pub mod Sim
