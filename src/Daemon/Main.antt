-- ===== src/Daemon/Main.antt =====
-- `main` of src/daemon/main.cpp: arguments, configuration, engine and the report of the start.
--
-- What the TOML parser, the logging library and the engine's objects answer is the argument `World`; an exception
-- is one of their answers. `args` is argv without the program's name. Logging is left out.

mod Reporting
mod Serving
pub mod Report
pub mod Starting
use yakut_native.Base.{
  ℕ, zero, suc, assign, List, [], ◌∷◌, ◌++◌, Bool, true, false, not, ◌||◌, Option, none, some,
  if◌then◌else◌, Text, codes, same, starts_with, drop, length,
}
use yakut_native.Daemon.Config.{Config, Root, Writing, make, save}
use yakut_native.Daemon.Engine.{
  Environment, Message, InitOutcome, no_transport, no_node, no_ipc_connections, bad_ipc_connection,
  router_not_started, init,
}
use yakut_native.Daemon.Process.{
  log_sink, Kernel, Process, M, ◌>>=◌, ◌>>◌, pure, exit, change, write_string,
}
use yakut_native.Daemon.Daemonize.{
  Calls, exit_success, exit_failure, setup_signal_handlers, step_14, daemonize,
}

-- `Config::make`: the tree of the file, or an exception with its what(), or another one.
pub data Loading : Type 0 where
  loaded : Root → Loading
  refused : Text → Loading
  refused_unknown : Loading

pub record World (T : Type 0) : Type 0 where
  pub calls : Calls
  pub load : Text → Loading
  -- The descriptors that `setupLogging` opens for its sinks, and what() of an exception of it.
  pub sinks : ℕ
  pub logging_throws : Option Text
  pub engine : Environment T
  pub init_throws : Bool
  -- An exception in the run loop.
  pub run_throws : Bool
  -- The last save.
  pub save_time : ℕ
  pub save_writing : Writing

abbrev pub dev_flag : Text
dev_flag = codes "--dev"

unfoldable pub has_dev_flag : List Text → Bool
has_dev_flag [] = false
has_dev_flag (arg ∷ args) = same arg dev_flag || has_dev_flag args

abbrev pub config_file_prefix : Text
config_file_prefix = codes "CONFIG_FILE="

-- The loop over the arguments: a later one wins.
unfoldable pub config_path : Text → List Text → Text
config_path path [] = path
config_path path (arg ∷ args) =
    config_path
      (if starts_with config_file_prefix arg then drop (length config_file_prefix) arg else path)
      args

unfoldable pub default_path : Bool → Text
default_path is_daemonized =
    (if is_daemonized then codes "/etc/ocvsmd/" else codes "./") ++ codes "ocvsmd.toml"

-- The messages of `Engine::init`.
unfoldable pub message_text : Message → Text
message_text no_transport = codes "Failed to create Cyphal transport."
message_text no_node = codes "Failed to create cyphal node."
message_text no_ipc_connections = codes "No IPC connections configured."
message_text bad_ipc_connection = codes "Failed to parse IPC connection."
message_text router_not_started = codes "Failed to start IPC router."

module _ (k : Kernel) where
  unfoldable pub fail_with : ℕ → Text → M Config
  unfolding write_string
  fail_with fd text = do write_string k fd text; exit exit_failure

  unfoldable pub on_loading : ℕ → Text → Loading → M Config
  unfolding fail_with
  on_loading fd path (loaded root) = pure (make root)
  on_loading fd path (refused what) =
      fail_with fd
        (codes "Failed to load configuration file (path='" ++ path ++ codes "')." ++ 10 ∷ what)
  on_loading fd path refused_unknown = fail_with fd (codes "Failed to load configuration file.")

  -- loadConfig.
  unfoldable pub load_config : (Text → Loading) → ℕ → Bool → List Text → M Config
  unfolding on_loading
  load_config load fd is_daemonized args =
      let path = config_path (default_path is_daemonized) args in on_loading fd path (load path)

  -- The log file and the connection to syslog, which stay open.
  unfoldable pub open_sinks : ℕ → Process → Process
  open_sinks zero p = p
  open_sinks (suc n) p = open_sinks n (record p { fds = assign (k.new_fd p.fds) log_sink p.fds })

  -- setupLogging: the descriptors of the sinks, and the report of an exception.
  unfoldable pub setup_logging : ℕ → Option Text → ℕ → M (Unit {0})
  unfolding write_string open_sinks
  setup_logging sinks none fd = change (open_sinks sinks)
  setup_logging sinks (some what) fd = do
    change (open_sinks sinks)
    write_string k fd (codes "Failed to setup logging: ")
    write_string k fd what
    exit exit_failure

  unfoldable pub notify : Bool → ℕ → M (Unit {0})
  unfolding step_14
  notify true fd = step_14 k fd
  notify false fd = pure tt

  module _ {T : Type 0} (w : World T) where
    -- The run loop, the last save and the result of `main`.
    unfoldable pub run_loop : Config → Bool → M (Unit {0})
    run_loop c true = exit exit_failure
    run_loop c false = do
      change λ p. record p { final = some (save w.save_time w.save_writing c) }
      exit exit_success

    unfoldable pub on_init : ℕ → Bool → Config → Option Message → M (Unit {0})
    unfolding notify run_loop write_string
    on_init fd is_daemonized c (some message) = do
      write_string k fd (codes "Failed to init engine: ")
      write_string k fd (message_text message)
      exit exit_failure
    on_init fd is_daemonized c none = do
      notify is_daemonized fd
      change λ p. record p { serves = true }
      run_loop c w.run_throws

    -- The part of `main` in its try block.
    unfoldable pub run_engine : ℕ → Bool → Bool → Config → M (Unit {0})
    unfolding on_init
    run_engine fd is_daemonized true c = exit exit_failure
    run_engine fd is_daemonized false c =
        let outcome = init w.engine c in on_init fd is_daemonized outcome.config outcome.message

    unfoldable pub serve : ℕ → Bool → List Text → M (Unit {0})
    unfolding load_config setup_logging run_engine
    serve fd is_daemonized args = do
      c ← load_config w.load fd is_daemonized args
      setup_logging w.sinks w.logging_throws fd
      run_engine fd is_daemonized w.init_throws c

    -- Standard error in development, or the pipe to the original process.
    unfoldable pub channel : Bool → M ℕ
    unfolding daemonize setup_signal_handlers
    channel true = daemonize k w.calls
    channel false = do setup_signal_handlers; pure 2

    unfoldable pub main : List Text → M (Unit {0})
    unfolding channel serve
    main args =
        let should_daemonize = not (has_dev_flag args) in
        do fd ← channel should_daemonize; serve fd should_daemonize args
