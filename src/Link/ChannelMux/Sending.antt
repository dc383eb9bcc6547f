-- ===== src/Link/ChannelMux/Sending.antt =====
-- What the flushes of js/link/channel_mux.mjs send is in order of priority and arrival.
use fount_p2p.Base.{ℕ, suc, ◌+◌, ◌<◌, ◌≡◌, refl, ◌⊎◌, List, [], ◌∷◌, ◌++◌, arith, inl, length, ap}
use fount_p2p.Link.ChannelMux.{Item, drain}

-- Draining splits the queue in two: nothing is lost, repeated or reordered. What is sent stops at
-- the end of the queue or at the first reading above the watermark.
pub drain_lem :
    (buffered : ℕ → ℕ) (high sent : ℕ) (queue : List Item)
    → let (out, rest) = drain buffered high sent queue in
      (out ++ rest ≡ queue) × ((rest ≡ []) ⊎ (high < buffered (sent + length out)))
unfolding drain
drain_lem buffered high sent [] = (refl, inl refl)
drain_lem buffered high sent (x ∷ xs) =
    let e : sent + 0 ≡ sent = omega arith in
    let k : suc sent + length (drain buffered high (suc sent) xs).0
        ≡ sent + suc (length (drain buffered high (suc sent) xs).0) =
      omega arith in
    ground (arith, drain_lem buffered high (suc sent) xs, ap buffered e, ap buffered k)
