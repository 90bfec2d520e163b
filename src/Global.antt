-- ===== src/Global.antt =====
-- `GlobalImpl` (src/core/Util.cpp): the initialisation of libssh2, whose state is a parameter. What the
-- constructor prints on a failure is left out.
use book_filer_module_ssh.Prelude.{ℤ, pos}
use book_filer_module_ssh.Flow.{M, returned}

pub record Library : Type 1 where
  pub State : Type 0
  pub libssh2_init : ℤ → State → ℤ × State
  pub libssh2_exit : State → State

module _ (library : Library) where
  open library use {State, libssh2_init, libssh2_exit}

  -- The constructor goes on whatever the return code is.
  unfoldable pub new_global : M State (Unit {0})
  new_global s = let (rc, s) = libssh2_init (pos 0) s in returned tt s

  -- `ModuleExport::newSshGlobal` (src/Module.cpp).
  unfoldable pub new_ssh_global : M State (Unit {0})
  new_ssh_global = new_global

  unfoldable pub destroy : M State (Unit {0})
  destroy s = returned tt (libssh2_exit s)
