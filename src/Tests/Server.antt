-- ===== src/Tests/Server.antt =====
-- Tests of the bus server and instances of its theorems.
use open_sesame.Prelude.{
  ℕ, ◌≡◌, refl, ◌==◌, if◌then◌else◌, inr, Option, some, none, List, [], ◌∷◌, arith,
}
use mathlib.Core.Option
use open_sesame.Prelude.Text.{Text, codes, text_eq}
use open_sesame.Prelude.Maps.{nat_eq, list_eq, get, insert, remove}
use open_sesame.Prelude.Update.{adjust, map_values}
use open_sesame.Types.{SecurityLevel, open_level, internal, secrets_only}
use open_sesame.Ipc.Registry.{ClearanceRegistry, register, new, lookup, lookup_name}
use open_sesame.Ipc.Server.{
  Frame, Message, EventKind, daemon_started, other_event, Postcard, ConnectionState, ServerState,
  bind, send, try_send,
}
use open_sesame.Ipc.Server.Route.{Fresh, denial, stamp, broadcast, respond, route_frame}
use open_sesame.Ipc.Server.Connect.{establish, take_conn_id, channel, handshake_trust, clearance_of}
use open_sesame.Ipc.Server.Delivery.{route_frame-denied, route_frame-request}
use open_sesame.Ipc.Server.Names.{Serves}
use open_sesame.Ipc.Server.History.{Reaches, established, accepted, routed, Reaches-IsNamed}
use open_sesame.Ipc.Server.Conversation.{IsRouted, IsAnswered, IsLate, request-response}
use open_sesame.Ipc.Server.Pending.{Later, at_once}
use open_sesame.Ipc.Server.Admission.{bound}

abbrev message : ℕ → Option ℕ → ℕ → EventKind → SecurityLevel → Message
message id corr sender payload level = record {
  wire_version = 3;
  msg_id = id;
  correlation_id = corr;
  sender = sender;
  timestamp = 0;
  payload = payload;
  security_level = level;
  verified_sender_name = none;
  origin_installation = none;
  agent_id = none;
  trust_snapshot = none;
}

-- Three clients talk: 10 asks, 20 answers, 30 is late; message 4 is above the asker's clearance, and
-- message 5 says that the asker has started.
abbrev question : Message
question = message 1 none 10 (other_event (codes "StatusRequest")) internal

abbrev answer : Message
answer = message 2 (some 1) 20 (other_event (codes "StatusResponse")) internal

abbrev late : Message
late = message 3 (some 1) 30 (other_event (codes "StatusResponse")) open_level

abbrev above : Message
above = message 4 none 10 (other_event (codes "SecretGet")) secrets_only

abbrev started : Message
started = message 5 none 10 (daemon_started 10 (codes "1.0") []) internal

-- A codec for these five alone.
abbrev codec : Postcard
codec = record { encode = λ m. some (m.msg_id ∷ []); decode = λ f. table f }
  where
    table : Frame → Option Message
    table [] = none
    table (n ∷ _) =
        if n == 1
        then some question
        else if n == 2
        then some answer
        else if n == 3
        then some late
        else if n == 4
        then some above
        else if n == 5
        then some started
        else none

abbrev fresh : Fresh
fresh = record { daemon_id = 99; msg_id = 100; timestamp = 0 }

abbrev client : Option Text → SecurityLevel → ConnectionState
client name level = record {
  daemon_id = none;
  verified_name = name;
  tx = channel;
  security_clearance = level;
  trust_vector = some handshake_trust;
}

-- Connection 1 is the window manager, 2 the secrets daemon, 3 an open client, all of them new.
abbrev three : ServerState
three = record {
  connections =
      (1, client (some (codes "wm")) internal)
      ∷ (2, client (some (codes "secrets")) secrets_only)
      ∷ (3, client none open_level)
      ∷ [];
  pending_requests = [];
  next_conn_id = 4;
  registry = new;
  confirmations = [];
  name_to_conn = [];
}

abbrev queue_of : ℕ → ServerState → Option (List Frame)
queue_of k s = Option.map (λ c. c.tx.queue) (get s.connections k)

-- The request passes the open client by.
question_routed :
    (queue_of 2 (route_frame codec fresh 1 (1 ∷ []) three) ≡ some ((1 ∷ []) ∷ []))
    × (queue_of 3 (route_frame codec fresh 1 (1 ∷ []) three) ≡ some [])
unfolding route_frame get adjust map_values insert remove send try_send stamp broadcast
question_routed = (refl, refl)

route_frame-denied_example :
    Option.map (λ c. c.tx) (get (route_frame codec fresh 1 (4 ∷ []) three).connections 1)
    ≡ some (try_send (100 ∷ []) channel)
unfolding get denial
route_frame-denied_example =
    (route_frame-denied codec fresh three 1 (4 ∷ []) above (client (some (codes "wm")) internal)
      refl refl (inr refl) refl).0

route_frame-request_example :
    get (route_frame codec fresh 1 (1 ∷ []) three).pending_requests 1 ≡ some 1
unfolding get stamp
route_frame-request_example =
    (route_frame-request codec fresh three 1 (1 ∷ []) question (client (some (codes "wm")) internal)
      refl refl (refl, refl) refl refl refl).2

-- Once it is asked, the window manager asks again, for what is above its clearance.
abbrev asked : ServerState
asked = route_frame codec fresh 1 (1 ∷ []) three

abbrev meanwhile : ServerState
meanwhile = route_frame codec fresh 1 (4 ∷ []) asked

meanwhile-Later : Later 1 1 asked meanwhile
meanwhile-Later = Later.routed codec fresh 1 (4 ∷ []) (omega arith) at_once

secrets_asked :
    IsRouted codec meanwhile 2
      (2 ∷ [])
      answer
      (send (1 ∷ []) (client (some (codes "secrets")) secrets_only))
      (2 ∷ [])
unfolding route_frame get adjust map_values insert remove send try_send stamp broadcast denial
secrets_asked = record {
  decoded = refl;
  connected = refl;
  admitted = (refl, refl);
  not_started = refl;
  encoded = refl;
}

wm_asks : IsRouted codec three 1 (1 ∷ []) question (client (some (codes "wm")) internal) (1 ∷ [])
unfolding get stamp
wm_asks = record {
  decoded = refl;
  connected = refl;
  admitted = (refl, refl);
  not_started = refl;
  encoded = refl;
}

abbrev answered : ServerState
answered = route_frame codec fresh 2 (2 ∷ []) meanwhile

late_answers : IsRouted codec answered 3 (3 ∷ []) late (client none open_level) (3 ∷ [])
unfolding route_frame get adjust map_values insert remove send try_send stamp broadcast respond
    denial
late_answers = record {
  decoded = refl;
  connected = refl;
  admitted = (refl, refl);
  not_started = refl;
  encoded = refl;
}

request-response_example :
    IsAnswered 1 1 2
      (2 ∷ [])
      (bound (send (1 ∷ []) (client (some (codes "secrets")) secrets_only)) answer)
      meanwhile
      answered
    × IsLate 1 3
        (3 ∷ [])
        (bound (client none open_level) late)
        answered
        (route_frame codec fresh 3 (3 ∷ []) answered)
request-response_example =
    request-response codec fresh fresh fresh three meanwhile answered 1 2 3 (1 ∷ []) (2 ∷ [])
      (3 ∷ []) (1 ∷ []) (2 ∷ []) (3 ∷ []) question answer late (client (some (codes "wm")) internal)
      (send (1 ∷ []) (client (some (codes "secrets")) secrets_only)) (client none open_level)
      wm_asks refl meanwhile-Later (omega arith) secrets_asked refl at_once late_answers refl

abbrev with_four : ServerState
with_four = establish 4 (7 ∷ []) three

wm_asks_four :
    IsRouted codec with_four 1 (1 ∷ []) question (client (some (codes "wm")) internal) (1 ∷ [])
unfolding get stamp establish insert remove
wm_asks_four = record {
  decoded = refl;
  connected = refl;
  admitted = (refl, refl);
  not_started = refl;
  encoded = refl;
}

-- The window manager connects and says that it has started.
abbrev registry : ClearanceRegistry
registry = register (codes "wm") (1 ∷ []) internal new

abbrev running : ServerState
running = route_frame codec fresh 1 (5 ∷ []) (establish 1 (1 ∷ []) (take_conn_id (bind registry)).1)

running_reached : Reaches running
unfolding bind take_conn_id get
running_reached =
    routed codec fresh 1 (5 ∷ []) (established 1 (1 ∷ []) refl (accepted (Reaches.bound registry)))

wm_found : get running.name_to_conn (codes "wm") ≡ some 1
unfolding bind take_conn_id get insert remove establish route_frame adjust map_values send try_send
    stamp broadcast register new lookup lookup_name clearance_of text_eq
wm_found = refl

Reaches-IsNamed_example : Serves running.connections 1 (codes "wm")
Reaches-IsNamed_example = Reaches-IsNamed running_reached (codes "wm") 1 wm_found
