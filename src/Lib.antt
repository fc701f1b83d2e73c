-- ===== src/Lib.antt =====
-- PMLib's measurement server (server/) and its client library (client/): clients open measurement
-- sessions against power meters.
--
-- How the program works. `Server` reads a configuration (parse_configfile), whose devices each run a
-- driver that yields samples. A connection (Server::connection) serves either one query about the
-- devices (`Info`) or one `Counter`: a session over some of a device's lines, whose requests start and
-- stop recording and ask for the recorded samples. The sessions of several clients share a device: its
-- lines count who holds them and who is measuring, and keep their samples while somebody holds them.
--
-- Where it is modelled:
-- - Prelude, Map, Outcome: helpers, `std::map`, and results: a value, a C++ exception or undefined
--   behaviour (a missing key behind a pointer, an unset optional, a range off its vector), which
--   `crash` stands for; `front()` of an empty vector is a fault of its own (empty_front).
-- - Wire: `send` and `receive` of server/server.hpp on a connection that is the bytes still to come,
--   the bytes sent and how many writes the peer still takes; it can break at each of them.
-- - Floating: the floating-point numbers, a parameter with their operations and encodings.
-- - Device: server/device.hpp and server/device.cpp, the operations on lines. Device/Lines, Holders,
--   Invariant, Effects and Undo prove about them.
-- - Sampling: the queue between a driver and its device, and Device::run; Sampling/Order proves about it.
-- - Lifecycle: Server::run, start_devices and stop_devices, with Lifecycle/Started.
-- - Drivers: the registered device types; Drivers/Rounds and Drivers/WattsUp: a round of the loops of
--   server/devices/. Ina219: the registers of server/devices/APCape.hpp.
-- - Counter: server/counter.cpp, a session. Counter/Mask has set_lines, Counter/Reply what get sends;
--   Selection, Rate, Sets, Resample, Get, Exact, Samples, Strided, Soundness, Waiting, Safety, Early
--   and Termination prove about them.
-- - Registry, Creation, Connection: the devices by name, a counter's construction and destruction,
--   and the thread of a connection; Creation/Lifetime, Creation/Ending and Connection/Safety prove
--   about them. Info: server/info.cpp, with Info/Streaming and Info/Safety. Config:
--   parse_configfile, with Config/Numbers, Reading and Wired.
-- - Client: the client's end of a connection, on which the network may put the server's writes
--   together; Client/Lines: the bit maps of client/line.h; Client/Parse: client/pm_set_lines.c;
--   Client/Requests and Client/Data: the calls that send a request and read its answer;
--   Client/Server: client/pm_set_server.c; Client/Print: client/pm_print_data_csv.c and its two kin;
--   Client/Energy: client/pm_calculate_energy.c and client/pm_fprint_counter_info.c; Client/Trace and
--   Client/Otf: the traces that client/pm_print_data_paraver.c and its kin and
--   client/pm_print_data_otf.c write; Client/Stream: client/pm_get_and_print_data_paraver.c, which
--   writes one while the reply arrives. Lines/Laws and Refinement, Parse/Reading and Ending, Session,
--   Print/Selection, Layout, Rows, Table and Range, Trace/Whole, Shares and Timeline, and Stream/Missed
--   prove about them; Exchange puts both ends together: Create, Get, Devices and Commands.
-- - Tests: concrete devices, sessions and clients.
--
-- Choices. A session's state is its counter, the device and the connection. What the other threads do
-- to the device between two requests is a list of events, applied when the session waits for a
-- request; operations run under a device's lock, or read what only grows, so that an event falls
-- between two of them. Counts and offsets are natural numbers: they start at 0 and the code tests
-- before it decreases them; that they stay below the range of their types is not modelled. The loop of
-- a session has as much fuel as there are bytes to read, and one more, since each round reads four; the
-- loop of pm_set_lines has as much as there are characters, and one more, since each round uses one up.
-- The client ends the process where a call fails (`exited`) and returns -1 for arguments that it
-- refuses (`invalid_argument`); a buffer that is too small and a variable without a value are
-- undefined behaviour. What it prints is the list of what `fprintf` is given. The constructor of a
-- counter receives four bytes over its one-byte flag for aggregation: the three others are taken to
-- lie in the padding and the first byte of interval, which is set afterwards. The loop over the lines
-- of pm_get_and_print_data_paraver has as much fuel as there are samples.
--
-- Not modelled: logging, the command line and the daemon of server/pmlib_server.cpp, the I2C bus and the
-- serial ports, the JSON library (a parameter of Config), Boost.Asio beyond a connection's reads and
-- writes, STXXL; of the client library, the plug-ins for VampirTrace and Score-P, and files that cannot
-- be opened.
pub mod Prelude
pub mod Map
pub mod Outcome
pub mod Wire
pub mod Floating
pub mod Device
pub mod Counter
pub mod Sampling
pub mod Lifecycle
pub mod Registry
pub mod Creation
pub mod Info
pub mod Connection
pub mod Ina219
pub mod Tests
pub mod Drivers
pub mod Config
pub mod Client
