-- ===== src/Daemon/EngineTests.antt =====
-- The start of the daemon (src/daemon/engine/engine.cpp) and its transports on concrete configurations.
use yakut_native.Base.{
  ◌⊎◌, ℕ, ◌+◌, ◌≤◌, ◌≡◌, ◌==◌, refl, List, [], ◌∷◌, true, false, Option, none, some, pos, take,
  length, if◌then◌else◌, Text, codes,
}
use yakut_native.Posix.{Outcome, returned, failed}
use yakut_native.Io.SocketAddress.{no_address, parse}
use yakut_native.Daemon.Media.{max_media}
use yakut_native.Daemon.Media.Udp.{UdpMediaCollection}
use yakut_native.Daemon.Media.Can.{CanMedia, Sockets}
use yakut_native.Daemon.Media.Can.Conservation.{Balanced}
use yakut_native.Daemon.Transport.{
  udp_make, udp_prefix, named, expected, transport_of, can_make, udp_make-expected,
}
use yakut_native.Daemon.Transport.CanSockets.{media_of, can_make-Conserved}
use yakut_native.Daemon.Config.{
  Config, Root, written, get_ipc_connections, get_cyphal_app_unique_id, set_cyphal_app_unique_id,
  save, make, get_cyphal_app_node_id,
}
use yakut_native.Daemon.Engine.{Environment, init, get_unique_id}
use yakut_native.Daemon.Engine

abbrev interfaces : List Text
interfaces =
    codes "udp://127.0.0.1,,127.0.0.2" ∷ codes "socketcan:vcan0,vcan1" ∷ codes "udp://a,b" ∷ []

-- A transport that is its media.
abbrev transport : List Text → Option (List Text)
transport addresses = some addresses

first_three :
    take max_media (named udp_prefix interfaces)
    ≡ codes "127.0.0.1" ∷ codes "127.0.0.2" ∷ codes "a" ∷ []
first_three = refl

udp_make-expected_example :
    (bag : Option (List Text × UdpMediaCollection)) × (udp_make transport interfaces ≡ some bag)
    × (transport_of bag ≡ expected transport (take max_media (named udp_prefix interfaces)))
udp_make-expected_example = udp_make-expected transport interfaces

-- The second socket of the second interface cannot be opened.
abbrev driver : ℕ → Text → Outcome ℕ
driver call address = if call == 3 then failed 19 else returned (call + 10)

abbrev no_sockets : Sockets
no_sockets = record { calls = 0; opened = []; closed = [] }

abbrev can_transport : List CanMedia → Option ℕ
can_transport media = some (length media)

can_make-Conserved_example :
    (bag : Option (ℕ × List CanMedia)) × (w : Sockets) × (can_make can_transport driver interfaces
        no_sockets
      ≡ some (bag, w))
    × Balanced 12 (media_of bag, w)
    × (length (media_of bag) ≤ max_media)
can_make-Conserved_example = can_make-Conserved can_transport 12 driver interfaces no_sockets refl

abbrev pub root : Root
root = record {
  node_id = some 42;
  unique_id = none;
  interfaces = some interfaces;
  roots = none;
  connections = some (codes "unix:/run/yakut" ∷ []);
  log_file = none;
  log_level = none;
  log_flush_level = none;
  last_modified = none;
}

abbrev config : Config
config = record { root = root; is_dirty = false; file = root }

abbrev pub environment : Environment (List Text)
environment = record {
  make_udp = transport;
  make_can = transport;
  makes_node = true;
  libc = record {
    pton = λ family host. no_address;
    ntop = λ family address. none;
    strtoull = λ text. (0, text);
    decimal = λ n. codes "0";
  };
  router_start = pos 0;
  random = 1 ∷ 2 ∷ [];
  now = 5;
  writing = written;
}

pub starts : (init environment config).message ≡ none
unfolding init get_ipc_connections get_unique_id get_cyphal_app_unique_id set_cyphal_app_unique_id
    save parse
starts = refl

-- A start with another random identifier.
abbrev restarted : Environment (List Text)
restarted = record environment { random = 7 ∷ 8 ∷ []; now = 9 }

first_identity : Engine.Startup.identities (init environment (make root)).steps ≡ (1 ∷ 2 ∷ []) ∷ []
unfolding Engine.Startup.identities make init get_ipc_connections get_unique_id
    get_cyphal_app_unique_id set_cyphal_app_unique_id save parse get_cyphal_app_node_id
first_identity = refl

init-keeps_identity_example :
    let file =
      Engine.Startup.file_after (restarted ∷ []) (init environment (make root)).config.file in
    let again = init restarted (make file) in
    (Engine.Startup.identities again.steps ≡ [])
    ⊎ (Engine.Startup.identities again.steps ≡ (1 ∷ 2 ∷ []) ∷ [])
init-keeps_identity_example =
    Engine.Startup.init-keeps_identity environment root (restarted ∷ []) restarted (1 ∷ 2 ∷ []) refl
      first_identity
