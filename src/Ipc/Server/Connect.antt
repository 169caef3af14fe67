-- ===== src/Ipc/Server/Connect.antt =====
-- core-ipc/src/server.rs: connections that come and go, and the host's own calls.
use open_sesame.Prelude.{
  ℕ, ◌+◌, ◌%◌, ◌^◌, Bool, false, not, Option, none, some, List, [], ◌==◌, if◌then◌else◌,
}
use open_sesame.Prelude.Text.{Text}
use open_sesame.Prelude.Maps.{nat_eq, list_eq, get, insert, remove}
use open_sesame.Prelude.Update.{adjust, map_values, retain_values}
use open_sesame.Types.{SecurityLevel, secrets_only}
use open_sesame.Ipc.Registry.{Pubkey, ClearanceRegistry, DaemonIdentity, lookup, lookup_name}
use open_sesame.Ipc.Server.{
  Frame, Message, Postcard, Sender, TrustVector, low, local, human, ConnectionState, ServerState,
  has_room, send, is_below,
}

-- `fetch_add` on a `u64`.
unfoldable pub take_conn_id : ServerState → ℕ × ServerState
take_conn_id s = (s.next_conn_id, record s { next_conn_id = (s.next_conn_id + 1) % 2 ^ 64 })

abbrev identified : Option DaemonIdentity → Option Text → SecurityLevel × Option Text
identified (some identity) (some name) = (identity.security_level, some name)
identified (some identity) none = (secrets_only, none)
identified none name = (secrets_only, none)

-- The clearance and the name of a client by its key.
unfoldable pub clearance_of : ClearanceRegistry → Pubkey → SecurityLevel × Option Text
clearance_of reg client_pubkey =
    identified (lookup reg client_pubkey) (lookup_name reg client_pubkey)

abbrev pub handshake_trust : TrustVector
handshake_trust = record {
  authn_strength = low;
  authz_freshness = 0;
  delegation_depth = 0;
  device_posture = 0;
  network_exposure = local;
  agent_type = human;
}

abbrev pub channel : Sender
channel = record { queue = []; capacity = 256; is_closed = false }

unfoldable pub establish : ℕ → Pubkey → ServerState → ServerState
unfolding clearance_of
establish conn_id client_pubkey s = record s {
  connections =
      insert conn_id
        (record {
          daemon_id = none;
          verified_name = (clearance_of s.registry client_pubkey).1;
          tx = channel;
          security_clearance = (clearance_of s.registry client_pubkey).0;
          trust_vector = some handshake_trust;
        })
        s.connections;
}

-- The end of `handle_connection`.
unfoldable pub disconnect : ℕ → ServerState → ServerState
disconnect conn_id s = record s {
  connections = remove conn_id s.connections;
  pending_requests = retain_values (λ cid. not (cid == conn_id)) s.pending_requests;
  name_to_conn = retain_values (λ cid. not (cid == conn_id)) s.name_to_conn;
}

-- The peer writes a frame out of the channel.
abbrev rest_of {ℓ} : {A : Type ℓ} → List A → List A
rest_of [] = []
rest_of (List.◌∷◌ x xs) = xs

unfoldable pub received : ℕ → ServerState → ServerState
received conn_id s = record s {
  connections =
      adjust conn_id (λ conn. record conn { tx = record conn.tx { queue = rest_of conn.tx.queue } })
        s.connections;
}

unfoldable pub register : ℕ → SecurityLevel → Sender → ServerState → ServerState
unfolding take_conn_id
register daemon_id security_clearance tx s =
    let (conn_id, s') = take_conn_id s in
    record s' {
      connections =
          insert conn_id
            (record {
              daemon_id = some daemon_id;
              verified_name = none;
              tx = tx;
              security_clearance = security_clearance;
              trust_vector = none;
            })
            s'.connections;
    }

abbrev is_daemon : ℕ → Option ℕ → Bool
is_daemon id none = false
is_daemon id (some j) = j == id

unfoldable pub unregister : ℕ → ServerState → ServerState
unregister daemon_id s = record s {
  connections = retain_values (λ conn. not (is_daemon daemon_id conn.daemon_id)) s.connections;
}

abbrev is_sender : Option Message → Option ℕ → Bool
is_sender none id = false
is_sender (some msg) id = is_daemon msg.sender id

unfoldable pub publish : Postcard → Frame → SecurityLevel → ServerState → ServerState
publish codec frame security_level s = record s {
  connections =
      map_values
        (λ _ conn.
          if is_sender (codec.decode frame) conn.daemon_id
          then conn
          else if is_below conn.security_clearance security_level
          then conn
          else send frame conn)
        s.connections;
}

abbrev accepts : Option ConnectionState → Bool
accepts none = false
accepts (some conn) = has_room conn.tx

unfoldable pub send_to : ℕ → Frame → ServerState → Bool × ServerState
send_to conn_id frame s = (
  accepts (get s.connections conn_id),
  record s { connections = adjust conn_id (send frame) s.connections },
)

pub data SendError : Type 0 where
  not_connected gone_or_full : SendError

abbrev pub send_to_found : Option ℕ → Frame → ServerState → Option SendError × ServerState
send_to_found none frame s = (some not_connected, s)
send_to_found (some id) frame s =
    let (sent, s') = send_to id frame s in (if sent then none else some gone_or_full, s')

-- The error, if the frame was not enqueued.
unfoldable pub send_to_named : Text → Frame → ServerState → Option SendError × ServerState
unfolding send_to
send_to_named daemon_name frame s = send_to_found (get s.name_to_conn daemon_name) frame s

unfoldable pub take_pending_request : ℕ → ServerState → Option ℕ × ServerState
take_pending_request correlation_id s = (
  get s.pending_requests correlation_id,
  record s { pending_requests = remove correlation_id s.pending_requests },
)

unfoldable pub register_confirmation : ℕ → Sender → ServerState → ServerState
register_confirmation correlation_id confirm_tx s = record s {
  confirmations = insert correlation_id confirm_tx s.confirmations;
}

-- The guard is dropped.
unfoldable pub drop_confirmation : ℕ → ServerState → ServerState
drop_confirmation correlation_id s = record s {
  confirmations = remove correlation_id s.confirmations;
}
