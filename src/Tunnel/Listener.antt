-- ===== src/Tunnel/Listener.antt =====
-- `ssh::ListenerImpl` (src/core/TunnelServerListener.cpp): the settings that it hands to the client of
-- each connection, and the round of its loop after a connection was accepted.
pub mod Propagation
pub mod Round
pub mod Failing
pub mod Loop
use book_filer_module_ssh.Prelude.{
  ℕ, ◌+◌, ◌%◌, ◌^◌, ℤ, pos, is_negative, true, false, Option, none, some, List, [], ◌∷◌, ◌++◌,
}
use book_filer_module_ssh.Settings.{Settings, int, string}
use book_filer_module_ssh.Asio.{AddressApi}
use book_filer_module_ssh.Flow.{
  M, Result, returned, thrown, undefined, terminated, unfinished, ◌>>=◌, ◌>>◌, pure, get, modify,
  assigned,
}
use book_filer_module_ssh.Platform.{Platform}
use book_filer_module_ssh.Client.Object.{Client, new_client}
use book_filer_module_ssh.Client.Session.{connect, tunnel, destroy}
use book_filer_module_ssh.Tunnel.State.{ServerState}

-- `ssh::ConnectionImpl`, as far as the listener sees it: its id and its client.
pub record Connection (World : Type 0) : Type 0 where
  pub conn_id : Option ℕ
  pub ssh_client : Option (Client World)

-- `emplace_back`: no member has a value yet.
abbrev pub new_connection : {World : Type 0} → Connection World
new_connection = record { conn_id = none; ssh_client = none }

abbrev pub set_id : {World : Type 0} → ℕ → Connection World → Connection World
set_id id conn = record conn { conn_id = some id }

abbrev pub set_ssh_client : {World : Type 0} → Client World → Connection World → Connection World
set_ssh_client c conn = record conn { ssh_client = some c }

-- A coroutine that was spawned, by the id of its connection.
pub data Spawned : Type 0 where
  pulls pushes : ℕ → Spawned

pub record Listener (Address World : Type 0) : Type 0 where
  pub server_state : ServerState Address
  pub connection_list : List (Connection World)
  pub connection_id_increment : ℕ  -- unsigned int
  -- The coroutines that were spawned: `runPull` and `runPush`.
  pub spawned : List Spawned
  pub world : World

module _ (api : AddressApi) where
  open api use {Address, to_string}

  unfoldable pub settings_with : ℕ → ℤ → ℤ → ServerState Address → Settings
  settings_with source_port dest_port remote_port s =
      ("hostName", string s.dest_address_str)
      ∷ ("password", string s.password_str)
      ∷ ("port", int dest_port)
      ∷ ("remoteHostName", string s.remote_address_str)
      ∷ ("remotePort", int remote_port)
      ∷ ("srcHostName", string (to_string s.source_address))
      ∷ ("srcPort", int (pos source_port))
      ∷ ("userName", string s.user_name_str)
      ∷ []

  -- `map_`, in the order of its keys. `none` when a port was never assigned.
  unfoldable pub client_settings : ServerState Address → Option Settings
  client_settings s = elim s.source_port [
    | none ↦ none
    | some source_port ↦ elim s.dest_port_int [
      | none ↦ none
      | some dest_port ↦ elim s.remote_port_int [
        | none ↦ none
        | some remote_port ↦ some (settings_with source_port dest_port remote_port s)
      ]
    ]
  ]

  module _ (p : Platform) where
    open p use {World}

    -- A method of a client, run in the world of the listener.
    unfoldable pub in_client :
        {A : Type 0}
        → Client World
        → M (Client World) A
        → M (Listener Address World) (A × Client World)
    in_client c m l = elim (m (record c { world = l.world })) [
      | returned a d ↦ returned (a, d) (record l { world = d.world })
      | thrown e d ↦ thrown e (record l { world = d.world })
      | undefined d ↦ undefined (record l { world = d.world })
      | terminated d ↦ terminated (record l { world = d.world })
      | unfinished d ↦ unfinished (record l { world = d.world })
    ]

    -- The end of a round that `continue`s: the client goes out of scope and is destroyed.
    unfoldable pub discard : Client World → M (Listener Address World) (Unit {0})
    discard c = do _ ← in_client c (destroy p); pure tt

    -- The connection at the end of the list gets its client, and its two coroutines start.
    unfoldable pub start :
        ℕ → List (Connection World) → Client World → M (Listener Address World) (Unit {0})
    start id earlier c = modify (λ l. record l {
      connection_list = earlier ++ set_ssh_client c (set_id id new_connection) ∷ [];
      spawned = l.spawned ++ pulls id ∷ pushes id ∷ [];
    })

    -- From `connectionIdIncrement++` on.
    unfoldable pub accepted_round : M (Listener Address World) (Unit {0})
    accepted_round = do
      before ← get
      let id = (before.connection_id_increment + 1) % 2 ^ 32
      modify (λ l. record l {
        connection_id_increment = id;
        connection_list = l.connection_list ++ set_id id new_connection ∷ [];
      })
      settings ← assigned (client_settings before.server_state)
      (rc, connected) ← in_client (new_client settings before.world) (connect p)
      elim (is_negative rc) [
        | true ↦ discard connected
        | false ↦ do
          (rc, tunnelled) ← in_client connected (tunnel p)
          elim (is_negative rc) [
            | true ↦ discard tunnelled
            | false ↦ start id before.connection_list tunnelled
          ]
      ]
