-- ===== src/Server/Stub/Posted.antt =====
-- The packets that a stub receives, on their way to the manager.
use crs.Base.{ℕ, Bool, List, [], ◌∷◌, Option, some, ◌>>=◌}
use crs.NetPeer.Incoming.{Receiver, received}
use crs.Server.{TalkPacket, Manager, Taken}
use crs.Server.Stub.{stub_read}

module _ {D : Type 0} (pool_controlled : ℕ → Bool) (take : D → ℕ → TalkPacket → Taken D) where
  -- calls of `handle_read`, each of which receives some bytes
  unfoldable pub stub_reads : List (List ℕ) → Receiver → Manager D → Option (Manager D)
  stub_reads [] s m = some m
  stub_reads (bytes ∷ more) s m =
      stub_read pool_controlled take (received bytes ∷ []) s m >>= λ (result, t, m').
      stub_reads more t m'
