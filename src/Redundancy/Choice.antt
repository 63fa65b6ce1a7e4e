-- ===== src/Redundancy/Choice.antt =====
-- Which channel is chosen.
use com_lib.Redundancy.{
  ChannelHealth, healthy, degraded, find_from, get_primary_channel, has_healthy_channel,
  healthy_channel_count, update_channel_health, is_health,
}
use com_lib.Prelude.{
  ℕ, zero, suc, ◌+◌, ◌<◌, ◌≡◌, ◌≢◌, ◌⊎◌, inl, inr, refl, sym, subst, Bool-cases, ltb, ◌&&◌, true,
  false, List, [], ◌∷◌, Option, none, some, Option-cases, length, get_elem?, arith, ◌==◌,
  if◌then◌else◌,
}

-- No channel has this health.
abbrev pub Lacks : ChannelHealth → List ChannelHealth → Type 0
Lacks wanted [] = Unit {0}
Lacks wanted (h ∷ hs) = (h ≢ wanted) × Lacks wanted hs

-- Channel `i` is the first with this health.
abbrev pub IsFirst : ChannelHealth → ℕ → List ChannelHealth → Type 0
IsFirst wanted i [] = ⊥
IsFirst wanted zero (h ∷ hs) = h ≡ wanted
IsFirst wanted (suc i) (h ∷ hs) = (h ≢ wanted) × IsFirst wanted i hs

abbrev Found : ChannelHealth → ℕ → List ChannelHealth → Option ℕ → Type 0
Found wanted start hs none = Lacks wanted hs
Found wanted start hs (some j) = (i : ℕ) × (j ≡ start + i) × IsFirst wanted i hs

is_health_eq : (a b : ChannelHealth) → is_health a b ≡ true → a ≡ b
is_health_eq a b e = ground arith

is_health_ne : (a b : ChannelHealth) → is_health a b ≡ false → a ≢ b
is_health_ne a b e = ground arith

-- A search that starts one channel further on.
shift :
    (wanted : ChannelHealth) (start : ℕ) (h : ChannelHealth) (hs : List ChannelHealth)
    (r : Option ℕ)
    → h ≢ wanted
    → Found wanted (suc start) hs r
    → Found wanted start (h ∷ hs) r
shift wanted start h hs none ne f = (ne, f)
shift wanted start h hs (some j) ne (i, e, first) = (suc i, omega arith, (ne, first))

find_from-Found :
    (wanted : ChannelHealth) (start : ℕ) (hs : List ChannelHealth)
    → Found wanted start hs (find_from wanted start hs)
unfolding find_from
find_from-Found wanted start [] = tt
find_from-Found wanted start (h ∷ hs) = elim (Bool-cases (is_health h wanted)) [
  | inl e ↦ rw e (0, omega arith, is_health_eq h wanted e)
  | inr e ↦
      rw e (
        shift wanted start h hs _ (is_health_ne h wanted e) (find_from-Found wanted (suc start) hs))
]

-- What the choice says of the channels.
abbrev pub IsPrimary : List ChannelHealth → Option ℕ → Type 0
IsPrimary hs none = Lacks healthy hs × Lacks degraded hs
IsPrimary hs (some i) = IsFirst healthy i hs ⊎ (Lacks healthy hs × IsFirst degraded i hs)

Found-at :
    (wanted : ChannelHealth) (hs : List ChannelHealth) {j : ℕ}
    → Found wanted 0 hs (some j)
    → IsFirst wanted j hs
Found-at wanted hs {j} (i, e, first) =
    let e' : j ≡ i = omega arith in subst (λ k. IsFirst wanted k hs) (sym e') first

-- `getPrimaryChannel` gives the first healthy channel; where there is none, the first degraded one;
-- and nothing exactly where every channel is unknown or failed.
pub get_primary_channel-IsPrimary :
    (hs : List ChannelHealth) → IsPrimary hs (get_primary_channel hs)
unfolding get_primary_channel
get_primary_channel-IsPrimary hs =
    choose (find_from healthy 0 hs) (find_from degraded 0 hs) (find_from-Found healthy 0 hs)
      (find_from-Found degraded 0 hs)
  where
    choose :
        (a b : Option ℕ)
        → Found healthy 0 hs a
        → Found degraded 0 hs b
        → IsPrimary hs (elim a [ some i ↦ some i | none ↦ b ])
    choose (some i) b fa fb = inl (Found-at healthy hs fa)
    choose none (some i) fa fb = inr (fa, Found-at degraded hs fb)
    choose none none fa fb = (fa, fb)

first_in_range :
    (wanted : ChannelHealth) (i : ℕ) (hs : List ChannelHealth) → IsFirst wanted i hs → i < length hs
first_in_range wanted i [] f = absurd f
first_in_range wanted zero (h ∷ hs) f = omega arith
first_in_range wanted (suc i) (h ∷ hs) f = omega (arith, first_in_range wanted i hs f.1)

-- The chosen index is in range.
pub get_primary_channel-lt :
    (hs : List ChannelHealth) (i : ℕ) → get_primary_channel hs ≡ some i → i < length hs
get_primary_channel-lt hs i e = elim (subst (IsPrimary hs) e (get_primary_channel-IsPrimary hs)) [
  | inl f ↦ first_in_range healthy i hs f
  | inr f ↦ first_in_range degraded i hs f.1
]

Lacks-not_first :
    (wanted : ChannelHealth) (i : ℕ) (hs : List ChannelHealth)
    → Lacks wanted hs
    → IsFirst wanted i hs
    → ⊥
Lacks-not_first wanted i [] l f = f
Lacks-not_first wanted zero (h ∷ hs) l f = l.0 f
Lacks-not_first wanted (suc i) (h ∷ hs) l f = Lacks-not_first wanted i hs l.1 f.1

count_lacking : (hs : List ChannelHealth) → Lacks healthy hs → healthy_channel_count hs ≡ 0
unfolding healthy_channel_count
count_lacking [] l = refl
count_lacking (h ∷ hs) l = ground (arith, count_lacking hs l.1)

chosen :
    (hs : List ChannelHealth) (i : ℕ)
    → IsFirst degraded i hs
    → (j : ℕ) × (get_primary_channel hs ≡ some j)
chosen hs i f = elim (Option-cases (get_primary_channel hs)) [
  | inl e ↦ absurd (
      Lacks-not_first degraded i hs (subst (IsPrimary hs) e (get_primary_channel-IsPrimary hs)).1 f)
  | inr found ↦ found
]

-- Where no channel is healthy and one is degraded, `hasHealthyChannel` says yes although
-- `healthyChannelCount` is zero.
has_healthy_channel_degraded :
    (hs : List ChannelHealth) (i : ℕ)
    → Lacks healthy hs
    → IsFirst degraded i hs
    → (has_healthy_channel hs ≡ true) × (healthy_channel_count hs ≡ 0)
unfolding has_healthy_channel
has_healthy_channel_degraded hs i l f =
    let (j, e) = chosen hs i f in (ground (arith, e), count_lacking hs l)

-- After an update every channel reads as before but the updated one, which has the new health; an
-- index out of range changes nothing.
update_channel_health_get :
    (hs : List ChannelHealth) (channel j : ℕ) (health : ChannelHealth)
    → get_elem? (update_channel_health hs channel health) j
      ≡ (if channel == j && ltb channel (length hs) then some health else get_elem? hs j)
unfolding update_channel_health
update_channel_health_get [] channel j new = ground arith
update_channel_health_get (h ∷ hs) zero zero new = ground arith
update_channel_health_get (h ∷ hs) zero (suc j) new = ground arith
update_channel_health_get (h ∷ hs) (suc channel) zero new = ground arith
update_channel_health_get (h ∷ hs) (suc channel) (suc j) new =
    ground (arith, update_channel_health_get hs channel j new)
