-- ===== src/Ipc/Server/Pending.antt =====
-- How long a request stays pending, whatever else the server does.
use open_sesame.Prelude.{
  ℕ, ◌≡◌, ◌≢◌, refl, sym, ap, ◌∙◌, inl, inr, Bool, true, false, Bool-cases, not, Option, none, some,
  ◌==◌,
}
use open_sesame.Prelude.Text.{Text}
use open_sesame.Prelude.Maps.{nat_eq, list_eq, get, get-insert_ne, get-remove_ne, beq-ne}
use open_sesame.Prelude.Update.{get-retain_values}
use open_sesame.Types.{SecurityLevel}
use open_sesame.Ipc.Registry.{Pubkey, ClearanceRegistry}
use open_sesame.Ipc.Server.{
  Frame, Message, EventKind, daemon_started, access_denied, other_event, Postcard, Sender,
  ConnectionState, ServerState, TrustVector,
}
use open_sesame.Ipc.Server.Route.{
  Fresh, forward, bind_name, evict, respond, broadcast, send_to_target, deliver, deliver_encoded,
  admit, after_admit, route_from, route_decoded, route_frame,
}
use open_sesame.Ipc.Server.Connect.{
  take_conn_id, establish, disconnect, received, register, unregister, send_to_named, send_to_found,
  publish, send_to, take_pending_request, register_confirmation, drop_confirmation,
}

-- A frame that is no request of this id and no response to one.
abbrev SparesBy : ℕ → ℕ → Option ℕ → Type 0
SparesBy id msg_id none = msg_id ≢ id
SparesBy id msg_id (some corr_id) = corr_id ≢ id

abbrev Spares : ℕ → Option Message → Type 0
Spares id none = Unit
Spares id (some msg) = SparesBy id msg.msg_id msg.correlation_id

-- What the server comes to while other frames are routed, connections come and go but for that of the
-- asker, and the host makes its calls; none of it a request of this id or a response to one.
pub data Later (id asker : ℕ) (s : ServerState) : ServerState → Type 0 where
  at_once : Later id asker s s
  accepted : {t : ServerState} → Later id asker s t → Later id asker s (take_conn_id t).1
  established :
      {t : ServerState} (conn_id : ℕ) (client_pubkey : Pubkey)
      → Later id asker s t
      → Later id asker s (establish conn_id client_pubkey t)
  routed :
      {t : ServerState} (codec : Postcard) (fresh : Fresh) (conn_id : ℕ) (payload : Frame)
      → Spares id (codec.decode payload)
      → Later id asker s t
      → Later id asker s (route_frame codec fresh conn_id payload t)
  written :
      {t : ServerState} (conn_id : ℕ) → Later id asker s t → Later id asker s (received conn_id t)
  left :
      {t : ServerState} (conn_id : ℕ)
      → conn_id ≢ asker
      → Later id asker s t
      → Later id asker s (disconnect conn_id t)
  published :
      {t : ServerState} (codec : Postcard) (frame : Frame) (level : SecurityLevel)
      → Later id asker s t
      → Later id asker s (publish codec frame level t)
  sent :
      {t : ServerState} (conn_id : ℕ) (frame : Frame)
      → Later id asker s t
      → Later id asker s (send_to conn_id frame t).1
  named :
      {t : ServerState} (daemon_name : Text) (frame : Frame)
      → Later id asker s t
      → Later id asker s (send_to_named daemon_name frame t).1
  registered :
      {t : ServerState} (daemon_id : ℕ) (level : SecurityLevel) (tx : Sender)
      → Later id asker s t
      → Later id asker s (register daemon_id level tx t)
  unregistered :
      {t : ServerState} (daemon_id : ℕ)
      → Later id asker s t
      → Later id asker s (unregister daemon_id t)
  taken :
      {t : ServerState} (other : ℕ)
      → other ≢ id
      → Later id asker s t
      → Later id asker s (take_pending_request other t).1
  awaited :
      {t : ServerState} (other : ℕ) (tx : Sender)
      → Later id asker s t
      → Later id asker s (register_confirmation other tx t)
  dropped :
      {t : ServerState} (other : ℕ)
      → Later id asker s t
      → Later id asker s (drop_confirmation other t)
  rotated :
      {t : ServerState} (registry : ClearanceRegistry)
      → Later id asker s t
      → Later id asker s (record t { registry = registry })

evict-pending :
    (o : Option ℕ) (cid : ℕ) (s : ServerState)
    → (evict o cid s).pending_requests ≡ s.pending_requests
evict-pending none cid s = refl
evict-pending (some existing) cid s = elim (Bool-cases (existing == cid)) [
  | inl same ↦ rw same refl
  | inr other ↦ rw other refl
]

bind_name-pending :
    (e : EventKind) (name : Option Text) (cid : ℕ) (s : ServerState)
    → (bind_name e name cid s).pending_requests ≡ s.pending_requests
bind_name-pending (daemon_started _ _ _) (some name) cid s =
    evict-pending (get s.name_to_conn name) cid s
bind_name-pending (daemon_started _ _ _) none cid s = refl
bind_name-pending (access_denied _) name cid s = refl
bind_name-pending (other_event _) name cid s = refl

send_to_target-pending :
    (o : Option ℕ) (frame : Frame) (s : ServerState)
    → (send_to_target o frame s).pending_requests ≡ s.pending_requests
send_to_target-pending none frame s = refl
send_to_target-pending (some target_id) frame s = refl

-- A response takes its own request alone off the pending ones.
pub respond-spares :
    (corr_id : ℕ) (frame : Frame) (s : ServerState) (id : ℕ)
    → corr_id ≢ id
    → get (respond corr_id frame s).pending_requests id ≡ get s.pending_requests id
unfolding respond
respond-spares corr_id frame s id ne =
    ap (λ m. get m id) (send_to_target-pending (get s.pending_requests corr_id) frame _)
    ∙ get-remove_ne corr_id id s.pending_requests ne

deliver-pending :
    (o : Option ℕ) (msg : Message) (cid : ℕ) (frame : Frame) (s : ServerState) (id : ℕ)
    → SparesBy id msg.msg_id o
    → get (deliver o msg cid frame s).pending_requests id ≡ get s.pending_requests id
unfolding broadcast
deliver-pending none msg cid frame s id spares =
    get-insert_ne msg.msg_id id cid s.pending_requests spares
deliver-pending (some corr_id) msg cid frame s id spares = respond-spares corr_id frame s id spares

deliver_encoded-pending :
    (o : Option Frame) (msg : Message) (cid : ℕ) (s : ServerState) (id : ℕ)
    → SparesBy id msg.msg_id msg.correlation_id
    → get (deliver_encoded o msg cid s).pending_requests id ≡ get s.pending_requests id
deliver_encoded-pending none msg cid s id spares = refl
deliver_encoded-pending (some frame) msg cid s id spares =
    deliver-pending msg.correlation_id msg cid frame s id spares

forward-pending :
    (codec : Postcard) (msg : Message) (cid : ℕ) (name : Option Text) (trust : Option TrustVector)
    (s : ServerState) (id : ℕ)
    → SparesBy id msg.msg_id msg.correlation_id
    → get (forward codec msg cid name trust s).pending_requests id ≡ get s.pending_requests id
unfolding forward
forward-pending codec msg cid name trust s id spares =
    deliver_encoded-pending _ msg cid (bind_name msg.payload name cid s) id spares
    ∙ ap (λ m. get m id) (bind_name-pending msg.payload name cid s)

after_admit-pending :
    (codec : Postcard) (msg : Message) (cid : ℕ) (r : Bool × ConnectionState) (s : ServerState)
    (id : ℕ)
    → SparesBy id msg.msg_id msg.correlation_id
    → get (after_admit codec msg cid r s).pending_requests id ≡ get s.pending_requests id
after_admit-pending codec msg cid (true, conn) s id spares =
    forward-pending codec msg cid conn.verified_name conn.trust_vector _ id spares
after_admit-pending codec msg cid (false, conn) s id spares = refl

route_from-pending :
    (codec : Postcard) (fresh : Fresh) (msg : Message) (cid : ℕ) (o : Option ConnectionState)
    (s : ServerState) (id : ℕ)
    → SparesBy id msg.msg_id msg.correlation_id
    → get (route_from codec fresh msg cid o s).pending_requests id ≡ get s.pending_requests id
route_from-pending codec fresh msg cid none s id spares =
    forward-pending codec msg cid none none s id spares
route_from-pending codec fresh msg cid (some conn) s id spares =
    after_admit-pending codec msg cid (admit codec fresh msg conn) s id spares

route_decoded-pending :
    (codec : Postcard) (fresh : Fresh) (cid : ℕ) (o : Option Message) (s : ServerState) (id : ℕ)
    → Spares id o
    → get (route_decoded codec fresh cid o s).pending_requests id ≡ get s.pending_requests id
route_decoded-pending codec fresh cid none s id spares = refl
route_decoded-pending codec fresh cid (some msg) s id spares =
    route_from-pending codec fresh msg cid (get s.connections cid) s id spares

route_frame-pending :
    (codec : Postcard) (fresh : Fresh) (cid : ℕ) (payload : Frame) (s : ServerState) (id : ℕ)
    → Spares id (codec.decode payload)
    → get (route_frame codec fresh cid payload s).pending_requests id ≡ get s.pending_requests id
unfolding route_frame
route_frame-pending codec fresh cid payload s id spares =
    route_decoded-pending codec fresh cid (codec.decode payload) s id spares

-- A request is pending for the asker, or for nobody.
abbrev IsPending : ℕ → ℕ → ServerState → Bool → Type 0
IsPending id asker s true = get s.pending_requests id ≡ some asker
IsPending id asker s false = get s.pending_requests id ≡ none

IsPending-cong :
    (id asker : ℕ) (s t : ServerState) (b : Bool)
    → get t.pending_requests id ≡ get s.pending_requests id
    → IsPending id asker s b
    → IsPending id asker t b
IsPending-cong id asker s t true e h = e ∙ h
IsPending-cong id asker s t false e h = e ∙ h

disconnect-IsPending :
    (id asker conn_id : ℕ) (s : ServerState) (b : Bool)
    → conn_id ≢ asker
    → IsPending id asker s b
    → IsPending id asker (disconnect conn_id s) b
unfolding disconnect
disconnect-IsPending id asker conn_id s true ne h =
    get-retain_values (λ cid. not (cid == conn_id)) s.pending_requests id
    ∙ rw h (rw (beq-ne asker conn_id (λ e. ne (sym e))) refl)
disconnect-IsPending id asker conn_id s false ne h =
    get-retain_values (λ cid. not (cid == conn_id)) s.pending_requests id ∙ rw h refl

take-IsPending :
    (id asker other : ℕ) (s : ServerState) (b : Bool)
    → other ≢ id
    → IsPending id asker s b
    → IsPending id asker (take_pending_request other s).1 b
unfolding take_pending_request
take-IsPending id asker other s b ne h =
    IsPending-cong id asker s (take_pending_request other s).1 b
      (get-remove_ne other id s.pending_requests ne) h

send_to_found-pending :
    (o : Option ℕ) (frame : Frame) (s : ServerState)
    → (send_to_found o frame s).1.pending_requests ≡ s.pending_requests
unfolding send_to
send_to_found-pending none frame s = refl
send_to_found-pending (some conn_id) frame s = refl

send_to_named-pending :
    (daemon_name : Text) (frame : Frame) (s : ServerState)
    → (send_to_named daemon_name frame s).1.pending_requests ≡ s.pending_requests
unfolding send_to_named
send_to_named-pending daemon_name frame s =
    send_to_found-pending (get s.name_to_conn daemon_name) frame s

-- What is pending later is what was pending.
pub Later-IsPending :
    {id asker : ℕ} {s t : ServerState} (b : Bool)
    → IsPending id asker s b
    → Later id asker s t
    → IsPending id asker t b
unfolding take_conn_id establish received publish register unregister send_to register_confirmation
    drop_confirmation
Later-IsPending b h at_once = h
Later-IsPending b h (accepted {t} l) = Later-IsPending b h l
Later-IsPending b h (established {t} conn_id key l) = Later-IsPending b h l
Later-IsPending {id} {asker} b h (routed {t} codec fresh conn_id payload spares l) =
    IsPending-cong id asker t (route_frame codec fresh conn_id payload t) b
      (route_frame-pending codec fresh conn_id payload t id spares) (Later-IsPending b h l)
Later-IsPending b h (written {t} conn_id l) = Later-IsPending b h l
Later-IsPending {id} {asker} b h (left {t} conn_id ne l) =
    disconnect-IsPending id asker conn_id t b ne (Later-IsPending b h l)
Later-IsPending b h (published {t} codec frame level l) = Later-IsPending b h l
Later-IsPending b h (sent {t} conn_id frame l) = Later-IsPending b h l
Later-IsPending {id} {asker} b h (named {t} daemon_name frame l) =
    IsPending-cong id asker t (send_to_named daemon_name frame t).1 b
      (ap (λ m. get m id) (send_to_named-pending daemon_name frame t)) (Later-IsPending b h l)
Later-IsPending b h (registered {t} daemon_id level tx l) = Later-IsPending b h l
Later-IsPending b h (unregistered {t} daemon_id l) = Later-IsPending b h l
Later-IsPending {id} {asker} b h (taken {t} other ne l) =
    take-IsPending id asker other t b ne (Later-IsPending b h l)
Later-IsPending b h (awaited {t} other tx l) = Later-IsPending b h l
Later-IsPending b h (dropped {t} other l) = Later-IsPending b h l
Later-IsPending b h (rotated {t} registry l) = Later-IsPending b h l
