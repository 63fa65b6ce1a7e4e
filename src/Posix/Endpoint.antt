-- ===== src/Posix/Endpoint.antt =====
-- include/comm/ethernet/endpoint.hpp: the address and port of the Ethernet transports.
use com_lib.Prelude.{ℕ, List, [], ◌∷◌, is_empty, if◌then◌else◌}

-- `Endpoint`, its address a text.
pub record Endpoint : Type 0 where
  pub address : List ℕ
  pub port : ℕ

-- "0.0.0.0"
abbrev pub any_address : List ℕ
any_address = 48 ∷ 46 ∷ 48 ∷ 46 ∷ 48 ∷ 46 ∷ 48 ∷ []

-- The address to bind to.
abbrev pub local_address : Endpoint → List ℕ
local_address e = if is_empty e.address then any_address else e.address
