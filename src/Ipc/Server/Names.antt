-- ===== src/Ipc/Server/Names.antt =====
-- The names of the daemons lead to their connections.
use open_sesame.Prelude.{
  ℕ, ◌≡◌, refl, sym, ap, ◌∙◌, ◌≢◌, subst, inl, inr, true, false, not, Option, none, some, ◌==◌,
  ==_iff, Bool-cases, arith,
}
use open_sesame.Prelude.Text.{Text}
use open_sesame.Prelude.Maps.{
  Map, nat_eq, list_eq, get, insert, remove, get-remove_ne, get-insert_iff,
}
use open_sesame.Prelude.Update.{
  adjust, map_values, filter, get-adjust_if, get-map_values, get-retain_values,
}
use open_sesame.Ipc.Server.{
  Frame, Message, EventKind, daemon_started, access_denied, other_event, Postcard, ConnectionState,
  ServerState, send,
}
use open_sesame.Ipc.Server.Route.{Fresh, bind_name, evict, receive, admit, send_access_denied}
use open_sesame.Ipc.Server.Connect.{disconnect}

abbrev Connections : Type 0
Connections = Map ℕ ConnectionState

-- A connection with the name is there.
abbrev pub Serves : Connections → ℕ → Text → Type 0
Serves m cid name = (c : ConnectionState) × (get m cid ≡ some c) × (c.verified_name ≡ some name)

abbrev pub IsNamed : ServerState → Type 0
IsNamed s =
    (name : Text) (cid : ℕ) → get s.name_to_conn name ≡ some cid → Serves s.connections cid name

-- No connection is lost or renamed.
abbrev pub Keeps : Connections → Connections → Type 0
Keeps m m' = (cid : ℕ) (name : Text) → Serves m cid name → Serves m' cid name

pub adjust-Keeps :
    (k : ℕ) (f : ConnectionState → ConnectionState) (m : Connections)
    → ((c : ConnectionState) → (f c).verified_name ≡ c.verified_name)
    → Keeps m (adjust k f m)
adjust-Keeps k f m same cid name (c, present, named) = elim (Bool-cases (k == cid)) [
  | inl here ↦ (f c, get-adjust_if k cid f m ∙ rw (here, present) refl, same c ∙ named)
  | inr there ↦ (c, get-adjust_if k cid f m ∙ rw (there) present, named)
]

pub set-Keeps :
    (k : ℕ) (c c' : ConnectionState) (m : Connections)
    → get m k ≡ some c
    → c'.verified_name ≡ c.verified_name
    → Keeps m (adjust k (λ _. c') m)
set-Keeps k c c' m present same cid name (d, there, named) = elim (Bool-cases (k == cid)) [
  | inl here ↦ (
    c',
    get-adjust_if k cid (λ _. c') m ∙ rw (here, there) refl,
    (let e : k ≡ cid = (==_iff k cid).0 here in cc),
  )
  | inr other ↦ (d, get-adjust_if k cid (λ _. c') m ∙ rw other there, named)
]

pub map_values-Keeps :
    (f : ℕ → ConnectionState → ConnectionState) (m : Connections)
    → ((k : ℕ) (c : ConnectionState) → (f k c).verified_name ≡ c.verified_name)
    → Keeps m (map_values f m)
map_values-Keeps f m same cid name (c, present, named) =
    (f cid c, get-map_values f m cid ∙ rw present refl, same cid c ∙ named)

pub send-verified_name :
    (frame : Frame) (c : ConnectionState) → (send frame c).verified_name ≡ c.verified_name
unfolding send
send-verified_name frame c = refl

pub receive-verified_name :
    (msg : Message) (cid : ℕ) (frame : Frame) (k : ℕ) (c : ConnectionState)
    → (receive msg cid frame k c).verified_name ≡ c.verified_name
unfolding send
receive-verified_name msg cid frame k c = ground arith

pub admit-verified_name :
    (codec : Postcard) (fresh : Fresh) (msg : Message) (c : ConnectionState)
    → (admit codec fresh msg c).1.verified_name ≡ c.verified_name
unfolding admit send_access_denied send
admit-verified_name codec fresh msg c = ground arith

-- A state with the same names whose connections are kept.
Keeps-IsNamed :
    (s s' : ServerState)
    → s'.name_to_conn ≡ s.name_to_conn
    → Keeps s.connections s'.connections
    → IsNamed s
    → IsNamed s'
Keeps-IsNamed s s' same keep v name cid h =
    keep cid name (v name cid (sym (ap (λ m. get m name) same) ∙ h))

retained-cases :
    (conn_id cid : ℕ) (o : Option ℕ)
    → filter (λ i. not (i == conn_id)) o ≡ some cid
    → (o ≡ some cid) × (conn_id ≢ cid)
retained-cases conn_id cid none h = cc
retained-cases conn_id cid (some i) h = elim (Bool-cases (i == conn_id)) [
  | inl gone ↦ absurd (differ gone h)
  | inr kept ↦ (ground arith, λ e. apart kept e h)
]
  where
    differ : (i == conn_id) ≡ true → filter (λ i. not (i == conn_id)) (some i) ≡ some cid → ⊥
    differ gone e = ground arith

    apart :
        (i == conn_id) ≡ false
        → conn_id ≡ cid
        → filter (λ i. not (i == conn_id)) (some i) ≡ some cid
        → ⊥
    apart kept e r = ground arith

pub disconnect-IsNamed :
    (conn_id : ℕ) (s : ServerState) → IsNamed s → IsNamed (disconnect conn_id s)
unfolding disconnect
disconnect-IsNamed conn_id s v name cid h = kept (
    retained-cases conn_id cid (get s.name_to_conn name)
      (sym (get-retain_values (λ i. not (i == conn_id)) s.name_to_conn name) ∙ h))
  where
    kept :
        (get s.name_to_conn name ≡ some cid) × (conn_id ≢ cid)
        → Serves (remove conn_id s.connections) cid name
    kept (old, ne) =
        let (c, present, named) = v name cid old in
        (c, get-remove_ne conn_id cid s.connections ne ∙ present, named)

evict-Serves :
    (o : Option ℕ) (cid : ℕ) (s : ServerState) (k : ℕ) (name : Text)
    → ((old : ℕ) → o ≡ some old → old ≢ cid → old ≢ k)
    → Serves s.connections k name
    → Serves (evict o cid s).connections k name
evict-Serves none cid s k name apart there = there
evict-Serves (some old) cid s k name apart (c, present, named) = elim (Bool-cases (old == cid)) [
  | inl own ↦ (c, rw own present, named)
  | inr other ↦ (
    c,
    rw other (get-remove_ne old k s.connections (apart old refl (λ e. differ other e)) ∙ present),
    named,
  )
]
  where
    differ : (old == cid) ≡ false → old ≡ cid → ⊥
    differ ne e = ground arith

-- The newcomer has taken over the name, and the connection that had it is gone.
take_over-IsNamed :
    (name : Text) (cid : ℕ) (s : ServerState)
    → Serves s.connections cid name
    → IsNamed s
    → IsNamed (record (evict (get s.name_to_conn name) cid s) {
      name_to_conn = insert name cid s.name_to_conn;
    })
take_over-IsNamed name cid s own v other k h =
    elim ((get-insert_iff name other cid s.name_to_conn k).0 h) [
      | inl (same, here) ↦
          evict-Serves (get s.name_to_conn name) cid s k other (λ old _ ne e. ne (e ∙ sym here))
            (own' same here)
      | inr (ne, old) ↦
          evict-Serves (get s.name_to_conn name) cid s k other
            (λ gone bound _ e. ne (one_name (v name gone bound) (v other k old) e)) (v other k old)
    ]
  where
    own' : name ≡ other → cid ≡ k → Serves s.connections k other
    own' same here =
        subst (λ i. Serves s.connections i other) here (subst (Serves s.connections cid) same own)

    one_name :
        {i j : ℕ} {n m : Text} → Serves s.connections i n → Serves s.connections j m → i ≡ j → n ≡ m
    one_name (c, present, named) (d, there, called) e = cc

pub bind_name-IsNamed :
    (e : EventKind) (name : Option Text) (cid : ℕ) (s : ServerState)
    → ((n : Text) → name ≡ some n → Serves s.connections cid n)
    → IsNamed s
    → IsNamed (bind_name e name cid s)
bind_name-IsNamed (daemon_started _ _ _) none cid s own v = v
bind_name-IsNamed (access_denied _) name cid s own v = v
bind_name-IsNamed (other_event _) name cid s own v = v
bind_name-IsNamed (daemon_started _ _ _) (some name) cid s own v =
    take_over-IsNamed name cid s (own name refl) v
