-- ===== src/Lib.antt =====
-- Open Sesame: a window switcher and launcher with an overlay that unlocks vaults.
--
-- The overlay's daemon is in daemon-wm. An event of the keyboard, the bus or a timer goes to
-- `OverlayController::handle`, which changes the controller's phase and gives commands; the main
-- loop executes the commands, and the results of launches and unlocks come back as events. When
-- the overlay is activated a snapshot is taken: the windows in the order of the MRU stack, which
-- is a file, with the window that has the focus last, and a letter hint for each window.
--
--   Wm/Controller       daemon-wm/src/controller.rs: State has the phases, the events and the
--                       commands; Activate, Typing, Input and Unlock the handlers; Handle the
--                       dispatch (`handle`) and a sequence of events (`run`)
--   Wm/Controller/Rules a case analysis over the events and phases: a property that each handler
--                       has, `handle` has. Valid, Commit, Announce and Password are the handlers'
--                       properties; History and Progress are about sequences of events
--   Wm/Snapshot         daemon-wm/src/controller.rs, `Snapshot`
--   Wm/Hints            daemon-wm/src/hints.rs
--   Wm/Mru              daemon-wm/src/mru.rs
--   Wm/Keys             daemon-wm/src/ipc_keys.rs: keys that arrive twice, and their events
--   Wm/Config, Types    core-config/src/schema_wm.rs and core-types/src: the data the overlay uses
--   Ipc/Registry        core-ipc/src/registry.rs: the daemons' keys and clearances
--   Secrets/Daemon      daemon-secrets/src: vault.rs in Opening, crud.rs and rate_limit.rs in Gates and
--                       Crud, unlock.rs in Unlocking, dispatch.rs in Dispatch
--   Types/ProfileName   core-types/src/profile.rs: the validation of names
--   Ipc/Server          core-ipc/src/server.rs, message.rs: connections and the routing of frames:
--                       Route route_frame, Connect the rest
--   Ipc/Framing         core-ipc/src/framing.rs: the frames on a socket
--   Secrets/Acl         daemon-secrets/src/acl.rs: who may read and list secrets
--   Secrets/Unlock      daemon-secrets/src/unlock.rs, vault.rs: vaults with several factors
--   Secrets/Jit         core-secrets/src/jit.rs: secrets kept for a while
--   Workspace           sesame-workspace/src: convention.rs in Convention, config.rs in Config
--   Types/Oci           core-types/src/oci.rs: references to extensions
--   Profile/Daemon      daemon-profile/src: activation.rs in Daemon, dispatch.rs in Handlers,
--                       key_rotation.rs in Rotation, over the secrets daemon
--   Memory              core-memory/src/alloc.rs: allocations for secrets
--   Profile/Audit       core-profile/src/audit.rs: the hash chain of the audit log
--   Profile/Context     core-profile/src/context.rs: the default profile
--   Prelude             maps, tests, list operations and text, over the native numbers
--   Tests               runs at fixed inputs, and instances of the theorems
--
-- The other daemons meet on a bus. It knows each of them by a public key, which the registry
-- resolves; the secrets daemon asks the access policy of the profile before it delivers a secret;
-- the profile daemon chooses the default profile by what the system reports, and logs what it does
-- in a chain of hashes.
--
-- Each handler is a function from the controller to the new controller and the list of commands,
-- in their order. `Option` around a step is the panic of an index out of range. A text is the list
-- of its code points; `str_len` is the length in bytes of its UTF-8 form. The Unicode tables (case
-- mapping and `is_alphanumeric`) are a parameter, `Unicode`. An `Instant` is a number of
-- nanoseconds, handed in with each event. The MRU file is a `Disk`: whether the cache folder can
-- be had, whether a lock is granted, whether the file reads as UTF-8, and its text; a write that
-- was begun succeeds. No function runs on fuel: the loops of the source are structural recursion.
-- A map is an association list, which `insert` keeps free of repeated keys. serde_json and the
-- digests of the audit log are the parameter `Primitives`, and the store behind the delivery cache
-- is a function of time.
--
-- Not modelled: drawing, Wayland and sockets (the commands and frames are values), local logging,
-- the main loop of the profile daemon, and the rest of the other daemons; of the secrets daemon
-- its start, the writes to the keyring and the encryption of single fields, which is off by
-- default. An error that tells of a length is modelled without it.
pub mod Prelude
pub mod Types
pub mod Memory
pub mod Wm
pub mod Ipc
pub mod Workspace
pub mod Secrets
pub mod Profile
mod Tests
