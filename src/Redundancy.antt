-- ===== src/Redundancy.antt =====
-- RedundancyManager of include/comm/core/safety.hpp: the health of the channels and the choice of
-- the best one. The array of `NumChannels` entries is a list of that length.
pub mod Choice
mod Tests
use com_lib.Prelude.{
  ℕ, zero, suc, ◌+◌, ◌≤◌, Bool, true, false, List, [], ◌∷◌, Option, none, some, ltb, ◌==◌,
  if◌then◌else◌, length, set, replicate,
}

pub data ChannelHealth : Type 0 where
  unknown healthy degraded failed : ChannelHealth

abbrev rank : ChannelHealth → ℕ
rank unknown = 0
rank healthy = 1
rank degraded = 2
rank failed = 3

abbrev pub is_health : ChannelHealth → ChannelHealth → Bool
is_health a b = rank a == rank b

pub new_channels : ℕ → List ChannelHealth
new_channels num_channels = replicate num_channels unknown

unfoldable pub update_channel_health : List ChannelHealth → ℕ → ChannelHealth → List ChannelHealth
update_channel_health channels channel health =
    if ltb channel (length channels) then set channels channel health else channels

-- The loop for one grade of health, from channel `i` on.
pub find_from : ChannelHealth → ℕ → List ChannelHealth → Option ℕ
find_from wanted i [] = none
find_from wanted i (h ∷ hs) = if is_health h wanted then some i else find_from wanted (suc i) hs

-- Healthy channels first, then degraded ones.
pub get_primary_channel : List ChannelHealth → Option ℕ
unfolding find_from
get_primary_channel channels = elim (find_from healthy 0 channels) [
  | some i ↦ some i
  | none ↦ find_from degraded 0 channels
]

pub has_healthy_channel : List ChannelHealth → Bool
unfolding get_primary_channel
has_healthy_channel channels = elim (get_primary_channel channels) [ some i ↦ true | none ↦ false ]

pub healthy_channel_count : List ChannelHealth → ℕ
healthy_channel_count [] = 0
healthy_channel_count (h ∷ hs) =
    if is_health h healthy then healthy_channel_count hs + 1 else healthy_channel_count hs
