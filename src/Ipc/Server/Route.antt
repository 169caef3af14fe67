-- ===== src/Ipc/Server/Route.antt =====
-- core-ipc/src/server.rs: `route_frame`, from the sender's check to the receivers' channels.
use open_sesame.Prelude.{ℕ, Bool, true, false, not, Option, none, some, ◌++◌, ◌==◌, if◌then◌else◌}
use open_sesame.Prelude.Text.{Text, codes}
use open_sesame.Prelude.Maps.{nat_eq, list_eq, get, insert, remove}
use open_sesame.Prelude.Update.{adjust, map_values}
use open_sesame.Types.{SecurityLevel, open_level}
use open_sesame.Ipc.Server.{
  Frame, Message, EventKind, daemon_started, access_denied, other_event, Postcard, TrustVector,
  ConnectionState, ServerState, send, try_send, is_below, level_debug,
}

-- What the clock and the generators of ids give for a reply.
pub record Fresh : Type 0 where
  pub daemon_id : ℕ
  pub msg_id : ℕ
  pub timestamp : ℕ

abbrev pub wire_version : ℕ
wire_version = 3

unfoldable pub denial : Fresh → ℕ → Text → Message
denial fresh request_msg_id reason = record {
  wire_version = wire_version;
  msg_id = fresh.msg_id;
  correlation_id = some request_msg_id;
  sender = fresh.daemon_id;
  timestamp = fresh.timestamp;
  payload = access_denied reason;
  security_level = open_level;
  verified_sender_name = none;
  origin_installation = none;
  agent_id = none;
  trust_snapshot = none;
}

abbrev send_encoded : Option Frame → ConnectionState → ConnectionState
send_encoded none conn = conn
send_encoded (some frame) conn = send frame conn

unfoldable pub send_access_denied : Postcard → Fresh → ℕ → Text → ConnectionState → ConnectionState
send_access_denied codec fresh request_msg_id reason =
    send_encoded (codec.encode (denial fresh request_msg_id reason))

abbrev pub keeps_identity : Option ℕ → ℕ → Bool
keeps_identity none sender = true
keeps_identity (some known_id) sender = known_id == sender

abbrev pub below_reason : SecurityLevel → SecurityLevel → Text
below_reason clearance level =
    codes "sender clearance "
    ++ (level_debug clearance ++ (codes " below message security level " ++ level_debug level))

-- The checks on a connected sender: whether the frame goes on, and the connection after them.
unfoldable pub admit : Postcard → Fresh → Message → ConnectionState → Bool × ConnectionState
unfolding send_access_denied
admit codec fresh msg conn =
    if not (keeps_identity conn.daemon_id msg.sender)
    then (
      false,
      send_access_denied codec fresh msg.msg_id (codes "sender identity changed mid-session") conn,
    )
    else (let bound = record conn { daemon_id = some msg.sender } in
        if is_below conn.security_clearance msg.security_level
        then (
          false,
          send_access_denied codec fresh msg.msg_id
              (below_reason conn.security_clearance msg.security_level) bound,
        )
        else (true, bound))

abbrev pub evict : Option ℕ → ℕ → ServerState → ServerState
evict none sender_conn_id s = s
evict (some existing_conn_id) sender_conn_id s =
    if existing_conn_id == sender_conn_id
    then s
    else record s { connections = remove existing_conn_id s.connections }

-- The name of a daemon that has started leads to its connection.
abbrev pub bind_name : EventKind → Option Text → ℕ → ServerState → ServerState
bind_name (daemon_started _ _ _) (some name) sender_conn_id s =
    record (evict (get s.name_to_conn name) sender_conn_id s) {
      name_to_conn = insert name sender_conn_id s.name_to_conn;
    }
bind_name (daemon_started _ _ _) none sender_conn_id s = s
bind_name (access_denied _) verified_name sender_conn_id s = s
bind_name (other_event _) verified_name sender_conn_id s = s

abbrev or_else : Option TrustVector → Option TrustVector → Option TrustVector
or_else none trust = trust
or_else (some t) trust = some t

unfoldable pub stamp : Option Text → Option TrustVector → Message → Message
stamp verified_name trust msg = record msg {
  verified_sender_name = verified_name;
  trust_snapshot = or_else msg.trust_snapshot trust;
}

abbrev pub send_to_target : Option ℕ → Frame → ServerState → ServerState
send_to_target none frame s = s
send_to_target (some target_id) frame s = record s {
  connections = adjust target_id (send frame) s.connections;
}

-- A response: to the host's confirmation channel and to the connection that asked.
unfoldable pub respond : ℕ → Frame → ServerState → ServerState
unfolding try_send send
respond corr_id frame s = send_to_target (get s.pending_requests corr_id) frame (record s {
  pending_requests = remove corr_id s.pending_requests;
  confirmations = adjust corr_id (try_send frame) s.confirmations;
})

-- What one connection gets of a request.
abbrev pub receive : Message → ℕ → Frame → ℕ → ConnectionState → ConnectionState
receive msg sender_conn_id frame cid conn =
    if cid == sender_conn_id
    then conn
    else if is_below conn.security_clearance msg.security_level
    then conn
    else send frame conn

unfoldable pub broadcast : Message → ℕ → Frame → ServerState → ServerState
unfolding send
broadcast msg sender_conn_id frame s = record s {
  pending_requests = insert msg.msg_id sender_conn_id s.pending_requests;
  connections = map_values (receive msg sender_conn_id frame) s.connections;
}

abbrev pub deliver : Option ℕ → Message → ℕ → Frame → ServerState → ServerState
deliver none msg sender_conn_id frame s = broadcast msg sender_conn_id frame s
deliver (some corr_id) msg sender_conn_id frame s = respond corr_id frame s

abbrev pub deliver_encoded : Option Frame → Message → ℕ → ServerState → ServerState
deliver_encoded none msg sender_conn_id s = s
deliver_encoded (some frame) msg sender_conn_id s =
    deliver msg.correlation_id msg sender_conn_id frame s

unfoldable pub forward :
    Postcard → Message → ℕ → Option Text → Option TrustVector → ServerState → ServerState
forward codec msg sender_conn_id verified_name trust s =
    deliver_encoded (codec.encode (stamp verified_name trust msg)) msg sender_conn_id
      (bind_name msg.payload verified_name sender_conn_id s)

abbrev pub set_connection : ℕ → ConnectionState → ServerState → ServerState
set_connection cid conn s = record s { connections = adjust cid (λ _. conn) s.connections }

abbrev pub after_admit : Postcard → Message → ℕ → Bool × ConnectionState → ServerState → ServerState
after_admit codec msg cid (true, conn) s =
    forward codec msg cid conn.verified_name conn.trust_vector (set_connection cid conn s)
after_admit codec msg cid (false, conn) s = set_connection cid conn s

-- A sender that is no longer connected passes the checks.
abbrev pub route_from :
    Postcard → Fresh → Message → ℕ → Option ConnectionState → ServerState → ServerState
route_from codec fresh msg cid none s = forward codec msg cid none none s
route_from codec fresh msg cid (some conn) s =
    after_admit codec msg cid (admit codec fresh msg conn) s

abbrev pub route_decoded : Postcard → Fresh → ℕ → Option Message → ServerState → ServerState
route_decoded codec fresh cid none s = s
route_decoded codec fresh cid (some msg) s =
    route_from codec fresh msg cid (get s.connections cid) s

unfoldable pub route_frame : Postcard → Fresh → ℕ → Frame → ServerState → ServerState
unfolding forward admit
route_frame codec fresh sender_conn_id payload =
    route_decoded codec fresh sender_conn_id (codec.decode payload)
