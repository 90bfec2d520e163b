-- ===== src/Port/Connection/Ownership.antt =====
-- The allocated buffers of a connection (src/core/PortForwardingServerConnection.cpp) as those of its
-- two queues.
use mathlib.Core.List.{Memᴰ}
use mathlib.Core.Path.{subst}
use book_filer_module_ssh.Prelude.{
  ℕ, some, List, [], ◌∷◌, ◌++◌, ◌≡◌, ◌≢◌, refl, sym, ◌⊎◌, inl, inr, arith,
}
use book_filer_module_ssh.Port.Connection.{Buffer, deallocate}

-- The allocated buffers are those of the two queues, which hold at most one each.
abbrev pub Owned : List Buffer → List Buffer → List Buffer → Type 0
Owned [] [] live = live ≡ []
Owned (a ∷ []) [] live = live ≡ a ∷ []
Owned [] (b ∷ []) live = live ≡ b ∷ []
Owned (a ∷ []) (b ∷ []) live = (a.address ≢ b.address) × ((live ≡ a ∷ b ∷ []) ⊎ (live ≡ b ∷ a ∷ []))
Owned _ _ live = ⊥

abbrev pub IsFree : ℕ → List Buffer → Type 0
IsFree address [] = Unit {0}
IsFree address (b ∷ bs) = (b.address ≢ address) × IsFree address bs

module _ (b : Buffer) where
  pub Owned-push :
      (q r live : List Buffer)
      → q ≡ []
      → Owned q r live
      → IsFree b.address live
      → Owned (q ++ b ∷ []) r (b ∷ live)
  Owned-push [] [] live e o f = ground arith
  Owned-push [] (x ∷ []) [] e o f = cc
  Owned-push [] (x ∷ []) (y ∷ ys) e o f = (λ h. f.0 (ground arith), inl (ground arith))
  Owned-push [] (x ∷ y ∷ r) live e o f = o
  Owned-push (x ∷ q) r live e o f = cc

  pub Owned-push_back :
      (q r live : List Buffer)
      → q ≡ []
      → Owned r q live
      → IsFree b.address live
      → Owned r (q ++ b ∷ []) (b ∷ live)
  Owned-push_back [] [] live e o f = ground arith
  Owned-push_back [] (x ∷ []) [] e o f = cc
  Owned-push_back [] (x ∷ []) (y ∷ ys) e o f = (λ h. f.0 (ground arith), inr (ground arith))
  Owned-push_back [] (x ∷ y ∷ r) live e o f = o
  Owned-push_back (x ∷ q) r live e o f = cc

  pub Owned-pop :
      (r live : List Buffer)
      → Owned (b ∷ []) r live
      → (live' : List Buffer) × (deallocate b live ≡ some live') × Owned [] r live'
  unfolding deallocate
  Owned-pop [] live o = ([], ground arith, refl)
  Owned-pop (x ∷ []) live (ne, inl e) = (x ∷ [], ground arith, refl)
  Owned-pop (x ∷ []) live (ne, inr e) = (x ∷ [], ground arith, refl)
  Owned-pop (x ∷ y ∷ r) live o = elim o [ ]

  pub Owned-pop_back :
      (r live : List Buffer)
      → Owned r (b ∷ []) live
      → (live' : List Buffer) × (deallocate b live ≡ some live') × Owned r [] live'
  unfolding deallocate
  Owned-pop_back [] live o = ([], ground arith, refl)
  Owned-pop_back (x ∷ []) live (ne, inl e) = (x ∷ [], ground arith, refl)
  Owned-pop_back (x ∷ []) live (ne, inr e) = (x ∷ [], ground arith, refl)
  Owned-pop_back (x ∷ y ∷ r) live o = elim o [ ]

pub Owned-mem : (b : Buffer) (r live : List Buffer) → Owned (b ∷ []) r live → Memᴰ b live
Owned-mem b [] live o = subst (Memᴰ b) (sym o) (Memᴰ.head refl)
Owned-mem b (x ∷ []) live (ne, inl e) = subst (Memᴰ b) (sym e) (Memᴰ.head refl)
Owned-mem b (x ∷ []) live (ne, inr e) = subst (Memᴰ b) (sym e) (Memᴰ.tail (Memᴰ.head refl))
Owned-mem b (x ∷ y ∷ r) live o = elim o [ ]
