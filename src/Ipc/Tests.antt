-- ===== src/Ipc/Tests.antt =====
-- Concrete routers for the tests of src/common/ipc: a plain encoding of the messages in place of the
-- generated one, quiet owners of gateways, and small states of each router.
pub mod ServerTests
pub mod ClientTests
pub mod SessionTests
pub mod PipeTests
pub mod StackTests
use mathlib.Core.Path.{subst}
use yakut_native.Base.{
  ◌+◌, assign, find-assign, find, ℕ, ◌≡◌, refl, ap, List, [], ◌∷◌, ◌++◌, Option, none, some, ℤ, pos,
  negsuc, drop, zero, suc, arith, Map, true, false, Distinct, find,
}
use yakut_native.Ipc.Types.{
  Payload, Event, Route, empty, connect, channel_msg, channel_end, Version,
}
use yakut_native.Ipc.Wire.{Wire, IsStandard}
use yakut_native.Ipc.Server
use yakut_native.Ipc.Client

abbrev number : ℤ → Payload → Payload
number (pos n) rest = 0 ∷ n ∷ rest
number (negsuc n) rest = 1 ∷ n ∷ rest

abbrev pub encode : Route → Payload
encode empty = 0 ∷ []
encode (connect major minor error_code) = 1 ∷ major ∷ minor ∷ number error_code []
encode (channel_msg m) = 2 ∷ m.tag ∷ m.sequence ∷ m.service_id ∷ m.payload_size ∷ []
encode (channel_end tag error_code) = 3 ∷ tag ∷ number error_code []

abbrev decode_connect : Payload → Option Route
decode_connect (major ∷ minor ∷ zero ∷ n ∷ rest) = some (connect major minor (pos n))
decode_connect (major ∷ minor ∷ suc zero ∷ n ∷ rest) = some (connect major minor (negsuc n))
decode_connect other = none

abbrev decode_channel_msg : Payload → Option Route
decode_channel_msg (tag ∷ sequence ∷ service_id ∷ payload_size ∷ rest) = some (
    channel_msg (record {
      tag = tag;
      sequence = sequence;
      service_id = service_id;
      payload_size = payload_size;
    }))
decode_channel_msg other = none

abbrev decode_channel_end : Payload → Option Route
decode_channel_end (tag ∷ zero ∷ n ∷ rest) = some (channel_end tag (pos n))
decode_channel_end (tag ∷ suc zero ∷ n ∷ rest) = some (channel_end tag (negsuc n))
decode_channel_end other = none

abbrev pub decode : Payload → Option Route
decode [] = none
decode (zero ∷ rest) = some empty
decode (suc zero ∷ rest) = decode_connect rest
decode (suc (suc zero) ∷ rest) = decode_channel_msg rest
decode (suc (suc (suc zero)) ∷ rest) = decode_channel_end rest
decode (other ∷ rest) = none

abbrev pub wire : Wire
wire = record { serialize = λ r. some (encode r); deserialize = decode; subspan = λ p n. drop n p }

written : Option Payload → Payload
written none = []
written (some p) = p

decode-encode : (r : Route) (rest : Payload) → decode (encode r ++ rest) ≡ some r
decode-encode empty rest = refl
decode-encode (connect major minor (pos n)) rest = refl
decode-encode (connect major minor (negsuc n)) rest = refl
decode-encode (channel_msg m) rest = refl
decode-encode (channel_end tag (pos n)) rest = refl
decode-encode (channel_end tag (negsuc n)) rest = refl

pub wire-IsStandard : IsStandard wire
unfolding written
wire-IsStandard = record {
  reads_back = λ r bytes rest h.
      subst (λ b. decode (b ++ rest) ≡ some r) (ap written h) (decode-encode r rest);
  subspan_drop = λ p n fits. refl;
}

abbrev pub version : Version
version = record { major = 0; minor = 1 }

abbrev pub server_env : Server.Env
server_env = record {
  wire = wire;
  version = version;
  send_result = λ trace client fragments. pos 0;
  invoke = λ handler event s. (s, pos 0);
  construct = λ factory id payload s. s;
}

abbrev pub client_env : Client.Env
client_env = record {
  wire = wire;
  version = version;
  send_result = λ trace fragments. pos 0;
  invoke = λ handler event s. (s, pos 0);
}

pub server_env-Keeps : Server.Steps.Keeps server_env
server_env-Keeps = record {
  invoke_Inv = λ handler event s v. v;
  construct_Inv = λ factory id payload s v. v;
}

pub server_env-IsQuiet : Server.Quiet.IsQuiet server_env
server_env-IsQuiet = record {
  invoke_quiet = λ handler event s. refl;
  construct_quiet = λ factory id payload s. refl;
}

pub server_env-Spares : (c : ℕ) → Server.Isolation.Spares c server_env
server_env-Spares c = record {
  invoke_same = λ id handler event s g found other held. Server.Isolation.IsSameFor-refl c s;
  construct_same = λ factory id payload s g found other. Server.Isolation.IsSameFor-refl c s;
}

pub client_env-Keeps : Client.Steps.Keeps client_env
client_env-Keeps = record { invoke_Inv = λ handler event s v. v }

pub client_env-IsQuiet : Client.Quiet.IsQuiet client_env
client_env-IsQuiet = record { invoke_quiet = λ handler event s. refl }

-- A server with a factory for service 5 and one connected client, 1, whose channel 0 has a gateway.
abbrev pub gateway : Server.Gateway
gateway = record {
  client_id = 1;
  tag = 0;
  next_sequence = 0;
  event_handler = some 4;
  completion_error_code = pos 0;
  refs = 1;
}

abbrev pub server : Server.Server
server = record {
  clients = (1, (0, 0) ∷ []) ∷ [];
  factories = (5, 6) ∷ [];
  heap = (0, gateway) ∷ [];
  next_gateway = 1;
  trace = [];
}

abbrev tags : Map ℕ
tags = (0, 0) ∷ []

one_tag : Distinct tags
one_tag = unfold find in (refl, tt)

pub server-Inv : Server.Invariant.Inv server
server-Inv = record {
  distinct = λ client gateways h. subst Distinct {x = tags} (unfold find in ground arith) one_tag;
  alive = λ client tag id h. unfold Server.registered find in ground arith;
  owned = λ id. unfold find in ground arith;
}

-- A linked client whose channel 0 has sent one message.
abbrev pub client_gateway : Client.Gateway
client_gateway = record {
  tag = 0;
  next_sequence = 1;
  event_handler = some 4;
  completion_error_code = pos 0;
  refs = 1;
}

abbrev pub client : Client.Client
client = record {
  next_tag = 1;
  linked = true;
  gateways = (0, 0) ∷ [];
  heap = (0, client_gateway) ∷ [];
  next_gateway = 1;
  trace = [];
}

abbrev pub unlinked : Client.Client
unlinked = record client { linked = false }

abbrev client_tags : Map ℕ
client_tags = (0, 0) ∷ []

one_client_tag : Distinct client_tags
one_client_tag = unfold find in (refl, tt)

pub client-Inv : Client.Invariant.Inv client
client-Inv = record {
  distinct = one_client_tag;
  alive = λ tag id h. unfold find in ground arith;
  owned = λ id. unfold find in ground arith;
  counted = refl;
}

pub unlinked-Inv : Client.Invariant.Inv unlinked
unlinked-Inv = record {
  distinct = one_client_tag;
  alive = client-Inv.alive;
  owned = client-Inv.owned;
  counted = refl;
}

abbrev pub adopt : Option Server.Gateway → ℕ → Server.Server → Server.Server
adopt none id s = s
adopt (some g) id s = record s {
  heap = assign id (record g { refs = g.refs + 1; event_handler = some 4 }) s.heap;
}

-- A factory that keeps the gateway and sets its event handler.
abbrev pub adopting_env : Server.Env
adopting_env = record server_env { construct = λ factory id payload s. adopt (find id s.heap) id s }

adopt-Inv :
    (gateway_found : Option Server.Gateway) (id : ℕ) (s : Server.Server)
    → find id s.heap ≡ gateway_found
    → Server.Invariant.Inv s
    → Server.Invariant.Inv (adopt gateway_found id s)
adopt-Inv none id s found v = v
adopt-Inv (some g) id s found v = record {
  distinct = v.distinct;
  alive = λ client tag i h. ground (
    arith,
    find-assign i id (record g { refs = g.refs + 1; event_handler = some 4 }) s.heap,
    v.alive client tag i h,
  );
  owned = λ i. ground (
    arith,
    find-assign i id (record g { refs = g.refs + 1; event_handler = some 4 }) s.heap,
    v.owned i,
  );
}

pub adopting_env-Keeps : Server.Steps.Keeps adopting_env
adopting_env-Keeps = record {
  invoke_Inv = λ handler event s v. v;
  construct_Inv = λ factory id payload s v. adopt-Inv (find id s.heap) id s refl v;
}

pub adopting_env-Spares : (c : ℕ) → Server.Isolation.Spares c adopting_env
adopting_env-Spares c = record {
  invoke_same = λ id handler event s g found other held. Server.Isolation.IsSameFor-refl c s;
  construct_same = λ factory id payload s g found other. rw found (record {
    gateways = refl;
    objects = λ i. ground (
      arith,
      find-assign i id (record g { refs = g.refs + 1; event_handler = some 4 }) s.heap,
      found,
      other,
    );
    messages = refl;
  });
}
