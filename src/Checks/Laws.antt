-- ===== src/Checks/Laws.antt =====
-- What the checks decide.
use com_lib.Checks.{
  is_valid_can_id, is_valid_baud_rate, valid_rates, any_rate, SafeFrameHeader, frame_magic,
  calculate_frame_size, is_valid_frame_header, assign,
}
use com_lib.Prelude.{
  ℕ, ◌^◌, ◌≤◌, ◌<◌, Bool, true, false, List, [], ◌∷◌, ◌≡◌, ◌↔◌, ◌⊎◌, arith, if◌then◌else◌,
}

-- The payload length of a header is a `uint16_t`, so the size test never refuses: the header is valid
-- exactly when its magic number is right. A frame with such a header takes at most 65555 bytes.
is_valid_frame_header_iff :
    (h : SafeFrameHeader)
    → h.payload_length < 2 ^ 16
    → ((is_valid_frame_header h ≡ true) ↔ (h.magic ≡ frame_magic))
      × (calculate_frame_size h.payload_length ≤ 65555)
unfolding is_valid_frame_header calculate_frame_size
is_valid_frame_header_iff h fits = ground arith

-- An identifier is accepted exactly when it fits the 29 bits of the extended or the 11 bits of the
-- standard format.
pub is_valid_can_id_iff :
    (id : ℕ) (extended : Bool)
    → (is_valid_can_id id extended ≡ true) ↔ (id < 2 ^ (if extended then 29 else 11))
unfolding is_valid_can_id
is_valid_can_id_iff id true = ground arith
is_valid_can_id_iff id false = ground arith

-- The number is one of the list.
abbrev pub OneOf : ℕ → List ℕ → Type 0
OneOf r [] = ⊥
OneOf r (x ∷ xs) = (r ≡ x) ⊎ OneOf r xs

any_rate_iff : (r : ℕ) (rates : List ℕ) → (any_rate r rates ≡ true) ↔ OneOf r rates
unfolding any_rate
any_rate_iff r [] = (λ e. cc, λ h. absurd h)
any_rate_iff r (x ∷ xs) =
    let rest = any_rate_iff r xs in (ground (arith, rest.0), ground (arith, rest.1))

-- A baud rate is accepted exactly when it is one of the eleven rates of the table.
pub is_valid_baud_rate_iff : (r : ℕ) → (is_valid_baud_rate r ≡ true) ↔ OneOf r valid_rates
unfolding is_valid_baud_rate
is_valid_baud_rate_iff r = any_rate_iff r valid_rates

-- The comparison is irreflexive, and the bounds are in order.
module _ {ℓ} {T : Type ℓ} (lt : T → T → Bool) (min_val max_val : T) where
  -- A value within the bounds.
  abbrev pub IsWithin : T → Type 0
  IsWithin v = (lt v min_val ≡ false) × (lt max_val v ≡ false)

  -- Every assignment leaves a value within the bounds, where no value is less than itself and the
  -- bounds are in order.
  assign-IsWithin :
      ((t : T) → lt t t ≡ false)
      → lt max_val min_val ≡ false
      → (old value : T) → IsWithin (assign lt min_val max_val old value)
  unfolding assign
  assign-IsWithin irr order old value = ground (arith, irr min_val, irr max_val)

  -- A value within the bounds is assigned as it is.
  pub assign_within : (old value : T) → IsWithin value → assign lt min_val max_val old value ≡ value
  unfolding assign
  assign_within old value h = ground arith
