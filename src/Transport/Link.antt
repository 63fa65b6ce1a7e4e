-- ===== src/Transport/Link.antt =====
-- What the socket transports keep in the same way: statistics, health, the callbacks and the receive
-- thread. `running` tells the thread to run, and `joinable` says that `receiveThread_` holds one.
-- `error_calls` are the calls of the error callback, the last one first.
use com_lib.Transport.{
  ErrorCode, Statistics, new_statistics, count_sent, count_received, count_error, effective_sleep,
}
use com_lib.Prelude.Int.{ℤ, pos, negsuc}
use com_lib.Prelude.{ℕ, Bool, true, false, not, List, [], ◌∷◌, ltb, if◌then◌else◌}

pub record Link : Type 0 where
  pub stats : Statistics
  pub has_receive_callback : Bool
  pub has_error_callback : Bool
  pub healthy : Bool
  pub running : Bool
  pub joinable : Bool
  pub error_calls : List ErrorCode

-- The -1 of `send` and `receive`.
abbrev pub error_result : ℤ
error_result = negsuc 0

abbrev pub new_link : Link
new_link = record {
  stats = new_statistics;
  has_receive_callback = false;
  has_error_callback = false;
  healthy = true;
  running = false;
  joinable = false;
  error_calls = [];
}

unfoldable pub report_error : ErrorCode → Link → Link
report_error code l = record l {
  stats = count_error l.stats;
  healthy = false;
  error_calls = if l.has_error_callback then code ∷ l.error_calls else l.error_calls;
}

unfoldable pub record_send : ℕ → Link → Link
record_send bytes l = record l { stats = count_sent bytes l.stats }

unfoldable pub record_receive : ℕ → Link → Link
record_receive bytes l = record l { stats = count_received bytes l.stats }

-- `compare_exchange_strong(expected, true)`, and the new thread if it succeeds.
unfoldable pub launch : Link → Link
launch l = if l.running then l else record l { running = true; joinable = true }

-- `compare_exchange_strong(expected, false)`, and the join of the thread if it succeeds.
unfoldable pub halt : Link → Link
halt l = if not l.running then l else record l { running = false; joinable = false }

-- What a round of a receive thread does with the result of `receive`: it calls the receive callback with the
-- data, or sleeps for a time.
pub data LoopRound : Type 0 where
  notified : List ℕ → LoopRound
  slept : ℕ → LoopRound

abbrev is_positive : ℤ → Bool
is_positive (pos n) = ltb 0 n
is_positive (negsuc n) = false

unfoldable pub loop_round : ℤ → List ℕ → ℕ → LoopRound
loop_round result buffer sleep =
    if is_positive result then notified buffer else slept (effective_sleep sleep)
