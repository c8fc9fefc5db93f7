-- ===== src/Daemon/MainTests.antt =====
-- The start of the daemon (src/daemon/main.cpp) in concrete processes.
use yakut_native.Base.{
  ℕ, zero, suc, ◌≤◌, ◌<◌, ◌≡◌, ◌↔◌, refl, sym, ap, take, List, [], ◌∷◌, true, false, none, some,
  arith, ltb, if◌then◌else◌, Text, codes, find, contains, erase, assign, length,
}
use yakut_native.Posix.{returned}
use yakut_native.Daemon.Config.{
  written, make, save, set_cyphal_app_unique_id, get_ipc_connections, get_cyphal_app_unique_id,
}
use yakut_native.Io.SocketAddress.{parse}
use yakut_native.Daemon.Engine.{init, get_unique_id}
use yakut_native.Daemon.EngineTests.{root, environment, starts}
use yakut_native.Daemon.Process.{
  Fds, inherited, Kernel, IsPosix, Process, goes_on, emit, status_of, process_of,
}
use yakut_native.Daemon.Daemonize.{
  init_complete, exit_success, daemonize, step_01, close_all, make_pipe, step_05, on_side,
  background, redirect, dup2,
}
use yakut_native.Daemon.Daemonize.Tables.{HasStdio}
use yakut_native.Daemon.Daemonize.Descriptors.{successful, IsDaemon, daemonize_isolates}
use yakut_native.Daemon.Main.{
  World, loaded, has_dev_flag, config_path, main, channel, serve, load_config, default_path,
  on_loading, open_sinks, setup_logging, run_engine, on_init, notify, run_loop,
}
use yakut_native.Daemon.Main.Report.{as_child, as_original, IsRead, main_reports}
use yakut_native.Daemon.Main.Starting.{main-Served}

-- A descriptor above all that are open.
above : Fds → ℕ
above [] = 0
above ((fd, file) ∷ fds) = if ltb fd (above fds) then above fds else suc fd

find-above : (n : ℕ) (fds : Fds) → above fds ≤ n → find n fds ≡ none
unfolding above find
find-above n [] h = refl
find-above n ((fd, file) ∷ fds) h = ground (arith, find-above n fds)

abbrev kernel : Kernel
kernel = record { new_fd = above; write = λ text. text; strerror = λ errno. codes "refused" }

take-length : (text : Text) → take (length text) text ≡ text
take-length [] = refl
take-length (c ∷ text) = ap (◌∷◌ c) (take-length text)

posix : IsPosix kernel
posix = record {
  is_new = λ fds. find-above (above fds) fds (omega arith);
  is_prefix = λ text. (length text, sym (take-length text));
  is_atomic = λ text h. refl;
}

-- A terminal on the standard descriptors, and a file.
abbrev start : Process
start = record {
  fds = (0, inherited 0) ∷ (1, inherited 0) ∷ (2, inherited 0) ∷ (7, inherited 1) ∷ [];
  piped = [];
  handles_signals = false;
  leads_session = false;
  umask = 18;
  directory = codes "/root";
  serves = false;
  final = none;
}

abbrev world : World (List Text)
world = record {
  calls = successful 8 (returned init_complete);
  load = λ path. loaded root;
  sinks = 2;
  logging_throws = none;
  engine = environment;
  init_throws = false;
  run_throws = false;
  save_time = 9;
  save_writing = written;
}

stdio : HasStdio start.fds
unfolding contains
stdio n h = ground arith

covers : (n : ℕ) → 8 < n → find n start.fds ≡ none
unfolding find
covers n h = ground arith

no_flag : has_dev_flag [] ≡ false
unfolding has_dev_flag
no_flag = refl

started : (init environment (make root)).message ≡ none
unfolding make
started = starts

-- What the original process reads.
told : IsRead (process_of (main kernel (as_child world) [] start)).piped init_complete
told =
    let served =
      main-Served kernel posix world 8 (returned init_complete) root [] start refl stdio covers refl
        no_flag refl refl refl started refl in
    (13, omega arith, rw served.1 (rw served.2.reports refl))

main_reports_example :
    (status_of (main kernel (as_original world 41 init_complete) [] start) ≡ some exit_success)
    ↔ ((process_of (main kernel (as_child world) [] start)).serves ≡ true)
main_reports_example =
    main_reports kernel posix world [] 41 init_complete start no_flag stdio (refl, refl) told

daemonize_isolates_example :
    (fd : ℕ) × (q : Process) × (daemonize kernel (successful 8 (returned init_complete)) start
      ≡ goes_on fd q)
    × IsDaemon start fd q
daemonize_isolates_example =
    daemonize_isolates kernel posix 8 (returned init_complete) start stdio covers

-- The path of a later argument is taken.
later_path :
    config_path
      (codes "./ocvsmd.toml")
      (codes "CONFIG_FILE=a" ∷ codes "--dev" ∷ codes "CONFIG_FILE=b" ∷ [])
    ≡ codes "b"
unfolding config_path
later_path = refl

-- The lowest descriptor that is free.
lowest : ℕ → ℕ → Fds → ℕ
lowest zero n fds = n
lowest (suc fuel) n fds = let next = lowest fuel (suc n) fds in if contains n fds then next else n

abbrev lowest_first : Kernel
lowest_first = record kernel { new_fd = lowest 16 0 }

-- Standard output and error are closed when the program starts.
abbrev closed_start : Process
closed_start = record start { fds = (0, inherited 0) ∷ [] }

-- The end of the pipe is then descriptor 2, which is redirected: the daemon serves, and has told nobody.
report_lost :
    let daemon = process_of (main lowest_first (as_child world) [] closed_start) in
    (daemon.serves ≡ true) × (daemon.piped ≡ [])
unfolding main has_dev_flag channel daemonize step_01 close_all erase make_pipe step_05 on_side
    background lowest find contains assign redirect dup2 emit init serve make load_config
    config_path default_path on_loading open_sinks setup_logging run_engine on_init notify run_loop
    get_unique_id save set_cyphal_app_unique_id parse get_ipc_connections get_cyphal_app_unique_id
report_lost = (refl, refl)
