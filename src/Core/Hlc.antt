-- ===== src/Core/Hlc.antt =====
-- js/core/hlc.mjs: hybrid logical clocks. Walls and counters are natural numbers; each reading of
-- `Date.now()` is an argument, in the order of the readings.
use fount_p2p.Base.{
  ℕ, max, ◌+◌, ◌≤◌, ◌<◌, ◌≡◌, refl, ◌⊎◌, Option, none, some, List, [], ◌∷◌, true, arith, ltb, ◌==◌,
  if◌then◌else◌, inl, inr, ◌&&◌, ◌↔◌, All, not,
}
use fount_p2p.Base.Int.{ℤ, pos, sub_ℕ, is_negative}

pub record Hlc : Type 0 where
  pub wall : ℕ
  pub logical : ℕ

unfoldable pub update : ℕ → Hlc → Hlc → Hlc
update local_wall this remote =
    if ltb this.wall local_wall && ltb remote.wall local_wall
    then record { wall = local_wall; logical = 0 }
    else if this.wall == remote.wall
    then record { wall = this.wall; logical = max this.logical remote.logical + 1 }
    else if ltb remote.wall this.wall
    then record { wall = this.wall; logical = this.logical + 1 }
    else record { wall = remote.wall; logical = remote.logical + 1 }

unfoldable pub tick : ℕ → Hlc → Hlc
tick local_wall this =
    if ltb this.wall local_wall
    then record { wall = local_wall; logical = 0 }
    else record { wall = this.wall; logical = this.logical + 1 }

-- `compare`: a number below, at or above zero.
unfoldable pub compare : Hlc → Hlc → ℤ
compare this other =
    if not (this.wall == other.wall)
    then sub_ℕ this.wall other.wall
    else sub_ℕ this.logical other.logical

abbrev pub wall_at : Option ℕ → ℕ → ℕ
wall_at none now = now
wall_at (some wall_ms) now = max wall_ms now

-- `nextHlc(lastHlcJson, wallMs)`; `again` is the clock's reading inside `update`.
unfoldable pub next_hlc : Option Hlc → Option ℕ → ℕ → ℕ → Hlc
unfolding update
next_hlc last wall_ms now again =
    let remote : Hlc = record { wall = wall_at wall_ms now; logical = 0 } in
    elim last [ none ↦ remote | some l ↦ update again l remote ]

-- The order of the clocks.
abbrev pub Before : Hlc → Hlc → Type 0
Before a b = (a.wall < b.wall) ⊎ ((a.wall ≡ b.wall) × (a.logical < b.logical))

-- `update` gives a clock later than both clocks that it merges, whatever the host's clock reads.
pub update-Before :
    (now : ℕ) (this remote : Hlc)
    → Before this (update now this remote) × Before remote (update now this remote)
unfolding update
update-Before now this remote = ground arith

-- `compare` is negative exactly when its first clock is before its second, and zero exactly at
-- equal clocks.
pub compare-Before :
    (a b : Hlc)
    → ((is_negative (compare a b) ≡ true) ↔ Before a b) × ((compare a b ≡ pos 0) ↔ (a ≡ b))
unfolding compare
compare-Before a b = ground arith

-- A new event's clock is strictly later than the last event's, and never earlier than the wanted
-- time or the host clock's reading.
pub next_hlc-Before :
    (last : Hlc) (wall_ms : Option ℕ) (now again : ℕ)
    → Before last (next_hlc (some last) wall_ms now again)
      × (wall_at wall_ms now ≤ (next_hlc (some last) wall_ms now again).wall)
unfolding next_hlc
next_hlc-Before last none now again = ground arith
next_hlc-Before last (some w) now again = ground arith

-- A chain of events, each stamped after the one before it: the wanted time and the two readings.
unfoldable pub stamp_all : Option Hlc → List (Option ℕ × ℕ × ℕ) → List Hlc
stamp_all last [] = []
stamp_all last ((w, now, again) ∷ rest) =
    let h = next_hlc last w now again in h ∷ stamp_all (some h) rest

follows : (a b c : Hlc) → (Before a b ⊎ (a ≡ b)) → Before b c → Before a c
follows a b c p q = ground arith

stamp_all-after :
    (events : List (Option ℕ × ℕ × ℕ)) (a last : Hlc)
    → (Before a last ⊎ (a ≡ last))
    → All (λ h. Before a h) (stamp_all (some last) events)
unfolding stamp_all
stamp_all-after [] a last h = tt
stamp_all-after ((w, now, again) ∷ rest) a last h =
    let next = next_hlc (some last) w now again in
    let later = follows a last next h (next_hlc-Before last w now again).0 in
    (later, stamp_all-after rest a next (inl later))

-- Each clock is before all that follow it.
abbrev pub Increases : List Hlc → Type 0
Increases [] = Unit
Increases (h ∷ hs) = All (λ k. Before h k) hs × Increases hs

-- In a chain of events every clock is before all later ones, whatever the clock of the host reads,
-- and also if it runs backwards.
pub stamp_all-Increases :
    (events : List (Option ℕ × ℕ × ℕ)) (last : Option Hlc) → Increases (stamp_all last events)
unfolding stamp_all
stamp_all-Increases [] last = tt
stamp_all-Increases ((w, now, again) ∷ rest) last =
    let next = next_hlc last w now again in
    (stamp_all-after rest next next (inr refl), stamp_all-Increases rest (some next))
