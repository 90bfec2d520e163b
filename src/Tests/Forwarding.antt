-- ===== src/Tests/Forwarding.antt =====
-- The theorem about the configuration of a forwarding server at a concrete input.
use book_filer_module_ssh.Prelude.{[], ◌∷◌, pos, ◌≡◌, refl}
use book_filer_module_ssh.Settings.{Settings, int, string}
use book_filer_module_ssh.Settings.Distinct.{is_map-IsMap}
use book_filer_module_ssh.Port.State.{configure}
use book_filer_module_ssh.Port.Configure.{described, port_configure-described}
use book_filer_module_ssh.Tests.World.{texts}

-- A port of more than 16 bits, one that is no integer, an address, and a key that the server does not
-- know.
abbrev settings : Settings
settings =
    ("destAddress", string (3 ∷ []))
    ∷ ("destPort", string (4 ∷ []))
    ∷ ("sourcePort", int (pos 65616))
    ∷ ("threadsNum", int (pos 2))
    ∷ []

port_configure-described_example : configure texts settings ≡ described texts settings
port_configure-described_example =
    port_configure-described texts settings (is_map-IsMap settings refl)
