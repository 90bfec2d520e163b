-- ===== src/Client/Channel/Rounds.antt =====
-- The rounds of `writeCommandChannel` (src/core/Client.cpp) as the calls of `libssh2_channel_write` that
-- they make, one after the other.
use book_filer_module_ssh.Prelude.{ℕ, ◌+◌, ◌≤◌, ◌<◌, pos, negsuc, Option, List, [], ◌∷◌, ◌≡◌, ◌⊎◌}
use book_filer_module_ssh.Settings.{Bytes}
use book_filer_module_ssh.Platform.{Platform}

module _ (p : Platform) (channel : Option ℕ) (bytes : Bytes) (len : ℕ) where
  open p use {World, channel_write}

  -- With some bytes written, the rounds from one world to another, in which the channel takes some
  -- numbers of bytes: a call fails, or takes nothing or all that is missing, and is the last one; or it
  -- takes less than is missing, and there is another one.
  pub data Rounds : ℕ → World → List ℕ → World → Type 0 where
    failed_round :
        {written : ℕ} {w : World} (e : ℕ)
        → (channel_write channel bytes len w).0 ≡ negsuc e
        → Rounds written w [] (channel_write channel bytes len w).1
    last_round :
        {written : ℕ} {w : World} (k : ℕ)
        → (channel_write channel bytes len w).0 ≡ pos k
        → (k ≡ 0) ⊎ (len ≤ written + k)
        → Rounds written w (k ∷ []) (channel_write channel bytes len w).1
    next_round :
        {written : ℕ} {w w' : World} {ks : List ℕ} (k : ℕ)
        → (channel_write channel bytes len w).0 ≡ pos k
        → 0 < k
        → written + k < len
        → Rounds (written + k) (channel_write channel bytes len w).1 ks w'
        → Rounds written w (k ∷ ks) w'
