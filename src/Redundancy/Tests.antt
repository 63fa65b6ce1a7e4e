-- ===== src/Redundancy/Tests.antt =====
-- The theorems on the redundancy manager at concrete channels.
use com_lib.Redundancy.{ChannelHealth, unknown, degraded, failed, get_primary_channel}
use com_lib.Redundancy.Choice.{IsPrimary, get_primary_channel-IsPrimary}
use com_lib.Prelude.{List, [], ◌∷◌}

abbrev channels : List ChannelHealth
channels = failed ∷ degraded ∷ unknown ∷ []

get_primary_channel-IsPrimary_example : IsPrimary channels (get_primary_channel channels)
get_primary_channel-IsPrimary_example = get_primary_channel-IsPrimary channels
