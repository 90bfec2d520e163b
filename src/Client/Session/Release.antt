-- ===== src/Client/Session/Release.antt =====
-- What the destructor of `ClientImpl` frees.
use book_filer_module_ssh.Prelude.{
  ℕ, Bool, true, false, Option, none, some, List, [], ◌∷◌, ◌++◌, append_assoc, append-nil, ◌≡◌,
  refl, sym, ◌∙◌, arith,
}
use mathlib.Core.Path.{subst}
use book_filer_module_ssh.Flow.{Result, returned, thrown, undefined, terminated, unfinished}
use book_filer_module_ssh.Platform.{Platform}
use book_filer_module_ssh.Client.Object.{Client}
use book_filer_module_ssh.Client.Session.{release_channels, release_session, close_socket, destroy}

pub data Handle : Type 0 where
  channel listener session : ℕ → Handle

-- A handle, or nothing for a null pointer.
abbrev pub held : (ℕ → Handle) → Option ℕ → List Handle
held kind none = []
held kind (some h) = kind h ∷ []

module _ (p : Platform) where
  open p use {
    World, session_set_blocking, session_disconnect, session_free, channel_free,
    channel_forward_cancel, socket_is_open, socket_shutdown, socket_close,
  }

  -- The documented effect of libssh2's functions on what has been freed, in order.
  pub record FreeContract : Type 0 where
    pub freed : World → List Handle
    pub frees_channel :
        (h : ℕ) (w : World) → freed (channel_free (some h) w) ≡ freed w ++ channel h ∷ []
    pub frees_listener :
        (h : ℕ) (w : World) → freed (channel_forward_cancel (some h) w) ≡ freed w ++ listener h ∷ []
    pub frees_session :
        (h : ℕ) (w : World) → freed (session_free (some h) w) ≡ freed w ++ session h ∷ []
    pub keeps_blocking :
        (h : Option ℕ) (b : Bool) (w : World) → freed (session_set_blocking h b w) ≡ freed w
    pub keeps_disconnect : (h : Option ℕ) (w : World) → freed (session_disconnect h w) ≡ freed w
    pub keeps_shutdown : (w : World) → freed (socket_shutdown w) ≡ freed w
    pub keeps_close : (w : World) → freed (socket_close w) ≡ freed w

  -- The worlds that the destructor goes through.
  abbrev after_channel : Option ℕ → World → World
  after_channel none w = w
  after_channel (some h) w = channel_free (some h) w

  abbrev after_listener : Option ℕ → World → World
  after_listener none w = w
  after_listener (some h) w = channel_forward_cancel (some h) w

  abbrev after_session : Option ℕ → World → World
  after_session none w = w
  after_session (some h) w =
      session_free (some h) (session_disconnect (some h) (session_set_blocking (some h) true w))

  abbrev after_close : Bool → World → World
  after_close true w = socket_close (socket_shutdown w)
  after_close false w = w

  abbrev after_handles : Client World → World
  after_handles c = after_session c.session (
      after_listener c.listener
        (after_channel c.listen_channel (after_channel c.command_channel c.world)))

  abbrev released : Client World → Client World
  released c = record c {
    command_channel = none;
    listen_channel = none;
    listener = none;
    session = none;
    world = after_close (socket_is_open (after_handles c)) (after_handles c);
  }

  destroy_lem :
      (c : Client World)
      → destroy p c
        ≡ (elim c.thread_io [ true ↦ terminated (released c) | false ↦ returned tt (released c) ])
  unfolding destroy release_channels release_session close_socket
  destroy_lem c = ground arith

  module _ (contract : FreeContract) where
    open contract use {freed}

    -- Everything that the client holds, channels first and the session last.
    abbrev pub holdings : Client World → List Handle
    holdings c =
        held channel c.command_channel
        ++ (held channel c.listen_channel ++ (held listener c.listener ++ held session c.session))

    abbrev pub FreesOnce : Client World → Result (Client World) (Unit {0}) → Type 0
    FreesOnce c (returned _ d) = freed d.world ≡ freed c.world ++ holdings c
    FreesOnce c (terminated d) = freed d.world ≡ freed c.world ++ holdings c
    FreesOnce c (thrown e d) = ⊥
    FreesOnce c (undefined d) = ⊥
    FreesOnce c (unfinished d) = ⊥

    freed-channel :
        (h : Option ℕ) (w : World) → freed (after_channel h w) ≡ freed w ++ held channel h
    freed-channel none w = sym (append-nil (freed w))
    freed-channel (some h) w = contract.frees_channel h w

    freed-listener :
        (h : Option ℕ) (w : World) → freed (after_listener h w) ≡ freed w ++ held listener h
    freed-listener none w = sym (append-nil (freed w))
    freed-listener (some h) w = contract.frees_listener h w

    freed-session :
        (h : Option ℕ) (w : World) → freed (after_session h w) ≡ freed w ++ held session h
    freed-session none w = sym (append-nil (freed w))
    freed-session (some h) w =
        simp (contract.frees_session, contract.keeps_disconnect, contract.keeps_blocking)

    freed-close : (b : Bool) (w : World) → freed (after_close b w) ≡ freed w
    freed-close true w = contract.keeps_close (socket_shutdown w) ∙ contract.keeps_shutdown w
    freed-close false w = refl

    freed-released : (c : Client World) → freed (released c).world ≡ freed c.world ++ holdings c
    freed-released c =
        simp (freed-close, freed-session, freed-listener, freed-channel, append_assoc)

    -- Where the functions of libssh2 that free a handle free that handle only and the others free
    -- nothing, the destructor of a client, however it ends, frees its command channel, its listen
    -- channel, its listener and its session, in this order, each of them that is not null exactly
    -- once, and nothing else.
    pub destroy-FreesOnce : (c : Client World) → FreesOnce c (destroy p c)
    destroy-FreesOnce c = go c.thread_io (destroy_lem c)
      where
        go :
            (b : Bool)
            → destroy p c
              ≡ (elim b [ true ↦ terminated (released c) | false ↦ returned tt (released c) ])
            → FreesOnce c (destroy p c)
        go true e = subst (FreesOnce c) (sym e) (freed-released c)
        go false e = subst (FreesOnce c) (sym e) (freed-released c)
