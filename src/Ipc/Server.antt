-- ===== src/Ipc/Server.antt =====
-- core-ipc/src/server.rs: connections, their clearance, and where a frame goes. message.rs: the
-- envelope. Each function runs as a whole, as one task of the server at a time.
pub mod Route
pub mod Connect
pub mod Admission
pub mod Delivery
pub mod Names
pub mod History
pub mod Pending
pub mod Conversation
use open_sesame.Prelude.{
  ℕ, ◌+◌, ◌<◌, Bool, true, false, not, ◌&&◌, Option, none, some, List, [], ◌∷◌, ◌++◌, map, length,
  ltb, leb, ◌==◌, if◌then◌else◌,
}
use open_sesame.Prelude.Text.{Text, codes}
use open_sesame.Prelude.Maps.{Map, nat_eq, list_eq, get, insert, remove}
use open_sesame.Prelude.Update.{adjust, map_values, retain_values}
use open_sesame.Types.{SecurityLevel, open_level, internal, profile_scoped, secrets_only}
use open_sesame.Ipc.Registry.{Pubkey, ClearanceRegistry, lookup, lookup_name}

-- The derived order of the levels.
abbrev level_rank : SecurityLevel → ℕ
level_rank open_level = 0
level_rank internal = 1
level_rank profile_scoped = 2
level_rank secrets_only = 3

-- `Debug` of a level.
abbrev pub level_debug : SecurityLevel → Text
level_debug open_level = codes "Open"
level_debug internal = codes "Internal"
level_debug profile_scoped = codes "ProfileScoped"
level_debug secrets_only = codes "SecretsOnly"

-- core-types/src/security.rs: the kind of a peer, and what is known of it. A posture is in hundredths.
pub data TrustLevel : Type 0 where
  no_trust low medium high hardware : TrustLevel

pub data NetworkTrust : Type 0 where
  local encrypted onion public_internet : NetworkTrust

pub data AgentType : Type 0 where
  human : AgentType
  ai service : Text → AgentType
  extension : List ℕ → AgentType

pub record TrustVector : Type 0 where
  pub authn_strength : TrustLevel
  pub authz_freshness : ℕ
  pub delegation_depth : ℕ
  pub device_posture : ℕ
  pub network_exposure : NetworkTrust
  pub agent_type : AgentType

-- core-types/src/events.rs: the events that the server reads or makes; any other is its text.
pub data EventKind : Type 0 where
  daemon_started : ℕ → Text → List Text → EventKind
  access_denied : Text → EventKind
  other_event : Text → EventKind

-- A UUID is its number. A daemon's id is a UUID.
pub record Message : Type 0 where
  pub wire_version : ℕ
  pub msg_id : ℕ
  pub correlation_id : Option ℕ
  pub sender : ℕ
  pub timestamp : ℕ
  pub payload : EventKind
  pub security_level : SecurityLevel
  pub verified_sender_name : Option Text
  pub origin_installation : Option Text
  pub agent_id : Option ℕ
  pub trust_snapshot : Option TrustVector

abbrev pub Frame : Type 0
Frame = List ℕ

-- postcard, behind `encode_frame` and `decode_frame`.
pub record Postcard : Type 0 where
  pub encode : Message → Option Frame
  pub decode : Frame → Option Message

-- A bounded channel: what was sent and not yet received.
pub record Sender : Type 0 where
  pub queue : List Frame
  pub capacity : ℕ
  pub is_closed : Bool

abbrev pub has_room : Sender → Bool
has_room tx = not tx.is_closed && ltb (length tx.queue) tx.capacity

-- `try_send`: a frame for a channel that is full or closed is lost.
unfoldable pub try_send : Frame → Sender → Sender
try_send frame tx = if has_room tx then record tx { queue = tx.queue ++ frame ∷ [] } else tx

pub record ConnectionState : Type 0 where
  pub daemon_id : Option ℕ
  pub verified_name : Option Text
  pub tx : Sender
  pub security_clearance : SecurityLevel
  pub trust_vector : Option TrustVector

pub record ServerState : Type 0 where
  pub connections : Map ℕ ConnectionState
  pub pending_requests : Map ℕ ℕ
  pub next_conn_id : ℕ
  pub registry : ClearanceRegistry
  pub confirmations : Map ℕ Sender
  pub name_to_conn : Map Text ℕ

-- `BusServer::bind`.
unfoldable pub bind : ClearanceRegistry → ServerState
bind registry = record {
  connections = [];
  pending_requests = [];
  next_conn_id = 1;
  registry = registry;
  confirmations = [];
  name_to_conn = [];
}

unfoldable pub send : Frame → ConnectionState → ConnectionState
unfolding try_send
send frame conn = record conn { tx = try_send frame conn.tx }

abbrev pub is_below : SecurityLevel → SecurityLevel → Bool
is_below a b = ltb (level_rank a) (level_rank b)
