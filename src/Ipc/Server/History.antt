-- ===== src/Ipc/Server/History.antt =====
-- What holds of every state that the server can come to.
use open_sesame.Prelude.{
  ℕ, ◌≡◌, refl, sym, ap, ◌∙◌, inl, inr, Bool, true, false, Option, none, some, Option-cases, arith,
}
use open_sesame.Prelude.Text.{Text}
use open_sesame.Prelude.Maps.{nat_eq, list_eq, get, get-insert_ne}
use open_sesame.Prelude.Update.{adjust}
use open_sesame.Types.{SecurityLevel}
use open_sesame.Ipc.Registry.{Pubkey, ClearanceRegistry}
use open_sesame.Ipc.Server.{
  Frame, Message, Postcard, Sender, ConnectionState, ServerState, TrustVector, bind, send,
}
use open_sesame.Ipc.Server.Route.{
  Fresh, forward, set_connection, stamp, bind_name, respond, broadcast, deliver, deliver_encoded,
  admit, after_admit, route_from, route_decoded, route_frame,
}
use open_sesame.Ipc.Server.Connect.{
  take_conn_id, establish, disconnect, received, publish, send_to, take_pending_request,
  register_confirmation, drop_confirmation,
}
use open_sesame.Ipc.Server.Names.{
  Serves, IsNamed, Keeps, adjust-Keeps, set-Keeps, map_values-Keeps, send-verified_name,
  receive-verified_name, admit-verified_name, disconnect-IsNamed, bind_name-IsNamed,
}

-- The states that the server's tasks and its host bring about, the tasks' ids being new.
pub data Reaches : ServerState → Type 0 where
  bound : (registry : ClearanceRegistry) → Reaches (bind registry)
  accepted : {s : ServerState} → Reaches s → Reaches (take_conn_id s).1
  established :
      {s : ServerState} (conn_id : ℕ) (client_pubkey : Pubkey)
      → get s.connections conn_id ≡ none
      → Reaches s
      → Reaches (establish conn_id client_pubkey s)
  routed :
      {s : ServerState} (codec : Postcard) (fresh : Fresh) (conn_id : ℕ) (payload : Frame)
      → Reaches s
      → Reaches (route_frame codec fresh conn_id payload s)
  written : {s : ServerState} (conn_id : ℕ) → Reaches s → Reaches (received conn_id s)
  left : {s : ServerState} (conn_id : ℕ) → Reaches s → Reaches (disconnect conn_id s)
  published :
      {s : ServerState} (codec : Postcard) (frame : Frame) (level : SecurityLevel)
      → Reaches s
      → Reaches (publish codec frame level s)
  sent :
      {s : ServerState} (conn_id : ℕ) (frame : Frame)
      → Reaches s
      → Reaches (send_to conn_id frame s).1
  taken : {s : ServerState} (id : ℕ) → Reaches s → Reaches (take_pending_request id s).1
  awaited :
      {s : ServerState} (id : ℕ) (tx : Sender) → Reaches s → Reaches (register_confirmation id tx s)
  dropped : {s : ServerState} (id : ℕ) → Reaches s → Reaches (drop_confirmation id s)
  rotated :
      {s : ServerState} (registry : ClearanceRegistry)
      → Reaches s
      → Reaches (record s { registry = registry })

respond-IsNamed :
    (corr_id : ℕ) (frame : Frame) (s : ServerState) → IsNamed s → IsNamed (respond corr_id frame s)
unfolding respond
respond-IsNamed corr_id frame s v = elim (Option-cases (get s.pending_requests corr_id)) [
  | inl unknown ↦ rw (unknown, respond) v
  | inr (target_id, known) ↦
      rw (known, respond)
        (λ name cid h.
          adjust-Keeps target_id (send frame) s.connections (send-verified_name frame) cid name
            (v name cid h))
]

broadcast-IsNamed :
    (msg : Message) (cid : ℕ) (frame : Frame) (s : ServerState)
    → IsNamed s
    → IsNamed (broadcast msg cid frame s)
unfolding broadcast
broadcast-IsNamed msg cid frame s v name k h =
    map_values-Keeps _ s.connections (receive-verified_name msg cid frame) k name (v name k h)

deliver-IsNamed :
    (corr : Option ℕ) (msg : Message) (cid : ℕ) (frame : Frame) (s : ServerState)
    → IsNamed s
    → IsNamed (deliver corr msg cid frame s)
deliver-IsNamed none msg cid frame s v = broadcast-IsNamed msg cid frame s v
deliver-IsNamed (some corr_id) msg cid frame s v = respond-IsNamed corr_id frame s v

deliver_encoded-IsNamed :
    (o : Option Frame) (msg : Message) (cid : ℕ) (s : ServerState)
    → IsNamed s
    → IsNamed (deliver_encoded o msg cid s)
deliver_encoded-IsNamed none msg cid s v = v
deliver_encoded-IsNamed (some frame) msg cid s v =
    deliver-IsNamed msg.correlation_id msg cid frame s v

forward-IsNamed :
    (codec : Postcard) (msg : Message) (cid : ℕ) (name : Option Text) (trust : Option TrustVector)
    (s : ServerState)
    → ((n : Text) → name ≡ some n → Serves s.connections cid n)
    → IsNamed s
    → IsNamed (forward codec msg cid name trust s)
unfolding forward
forward-IsNamed codec msg cid name trust s own v =
    deliver_encoded-IsNamed (codec.encode (stamp name trust msg)) msg cid
      (bind_name msg.payload name cid s) (bind_name-IsNamed msg.payload name cid s own v)

after_admit-IsNamed :
    (codec : Postcard) (msg : Message) (cid : ℕ) (r : Bool × ConnectionState) (s : ServerState)
    → ((k : ℕ) (n : Text)
        → Serves s.connections k n
        → Serves (adjust cid (λ _. r.1) s.connections) k n)
    → ((n : Text) → r.1.verified_name ≡ some n → Serves (adjust cid (λ _. r.1) s.connections) cid n)
    → IsNamed s
    → IsNamed (after_admit codec msg cid r s)
after_admit-IsNamed codec msg cid (true, conn) s keep own v =
    forward-IsNamed codec msg cid conn.verified_name conn.trust_vector (set_connection cid conn s)
      own (λ name k h. keep k name (v name k h))
after_admit-IsNamed codec msg cid (false, conn) s keep own v = λ name k h. keep k name (v name k h)

route_from-IsNamed :
    (codec : Postcard) (fresh : Fresh) (msg : Message) (cid : ℕ) (o : Option ConnectionState)
    (s : ServerState)
    → get s.connections cid ≡ o
    → IsNamed s
    → IsNamed (route_from codec fresh msg cid o s)
route_from-IsNamed codec fresh msg cid none s e v =
    forward-IsNamed codec msg cid none none s (λ n h. cc) v
route_from-IsNamed codec fresh msg cid (some conn) s e v =
    after_admit-IsNamed codec msg cid (admit codec fresh msg conn) s keep
      (λ n h. keep cid n (conn, e, sym (admit-verified_name codec fresh msg conn) ∙ h)) v
  where
    keep : Keeps s.connections (adjust cid (λ _. (admit codec fresh msg conn).1) s.connections)
    keep = set-Keeps cid conn _ s.connections e (admit-verified_name codec fresh msg conn)

route_decoded-IsNamed :
    (codec : Postcard) (fresh : Fresh) (cid : ℕ) (o : Option Message) (s : ServerState)
    → IsNamed s
    → IsNamed (route_decoded codec fresh cid o s)
route_decoded-IsNamed codec fresh cid none s v = v
route_decoded-IsNamed codec fresh cid (some msg) s v =
    route_from-IsNamed codec fresh msg cid (get s.connections cid) s refl v

route_frame-IsNamed :
    (codec : Postcard) (fresh : Fresh) (cid : ℕ) (payload : Frame) (s : ServerState)
    → IsNamed s
    → IsNamed (route_frame codec fresh cid payload s)
unfolding route_frame
route_frame-IsNamed codec fresh cid payload s v =
    route_decoded-IsNamed codec fresh cid (codec.decode payload) s v

establish-IsNamed :
    (conn_id : ℕ) (client_pubkey : Pubkey) (s : ServerState)
    → get s.connections conn_id ≡ none
    → IsNamed s
    → IsNamed (establish conn_id client_pubkey s)
unfolding establish
establish-IsNamed conn_id client_pubkey s new v name cid h =
    let (c, present, named) = v name cid h in
    (
      c,
      get-insert_ne conn_id cid _ s.connections (λ e. taken (ap (get s.connections) e) new present)
          ∙ present,
      named,
    )
  where
    taken :
        {c : ConnectionState}
        → get s.connections conn_id ≡ get s.connections cid
        → get s.connections conn_id ≡ none
        → get s.connections cid ≡ some c
        → ⊥
    taken e n p = cc

-- In every state that the server comes to, the name of a daemon leads to a live connection that
-- registered with that name.
pub Reaches-IsNamed : {s : ServerState} → Reaches s → IsNamed s
unfolding bind take_conn_id received publish send_to take_pending_request register_confirmation
    drop_confirmation send get
Reaches-IsNamed (bound registry) = λ name cid h. cc
Reaches-IsNamed (accepted r) = Reaches-IsNamed r
Reaches-IsNamed (established conn_id key new r) =
    establish-IsNamed conn_id key _ new (Reaches-IsNamed r)
Reaches-IsNamed (routed codec fresh conn_id payload r) =
    route_frame-IsNamed codec fresh conn_id payload _ (Reaches-IsNamed r)
Reaches-IsNamed (written conn_id r) =
    λ name cid h. adjust-Keeps conn_id _ _ (λ c. refl) cid name (Reaches-IsNamed r name cid h)
Reaches-IsNamed (left conn_id r) = disconnect-IsNamed conn_id _ (Reaches-IsNamed r)
Reaches-IsNamed (published codec frame level r) =
    λ name cid h. map_values-Keeps _ _ (λ k c. ground arith) cid name (Reaches-IsNamed r name cid h)
Reaches-IsNamed (sent conn_id frame r) =
    λ name cid h. adjust-Keeps conn_id _ _ (λ c. refl) cid name (Reaches-IsNamed r name cid h)
Reaches-IsNamed (taken id r) = Reaches-IsNamed r
Reaches-IsNamed (awaited id tx r) = Reaches-IsNamed r
Reaches-IsNamed (dropped id r) = Reaches-IsNamed r
Reaches-IsNamed (rotated registry r) = Reaches-IsNamed r
