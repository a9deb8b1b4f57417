-- ===== src/Protocol/Sequence.antt =====
-- include/qf/protocol/sequence.hpp and src/protocol/sequence.cpp.
pub mod Accounting
use real_time_market_data_fe.Base.{
  ℕ, ◌+◌, ◌-◌, ◌==◌, ltb, not, if◌then◌else◌, Bool, true, false, Option, none, some, List, [], ◌∷◌,
  ◌++◌,
}
use real_time_market_data_fe.Base.Words.{add64}

pub data SequenceStatus : Type 0 where
  ok gap duplicate : SequenceStatus

pub record GapRange : Type 0 where
  pub from : ℕ
  pub to : ℕ

pub record SequenceTracker : Type 0 where
  pub expected : ℕ
  pub initialized : Bool
  pub gaps : List GapRange
  pub total_gap_count : ℕ
  pub duplicate_count : ℕ

-- A default-constructed tracker.
abbrev pub new_tracker : SequenceTracker
new_tracker = record {
  expected = 0;
  initialized = false;
  gaps = [];
  total_gap_count = 0;
  duplicate_count = 0;
}

-- `SequenceTracker::check`: the new tracker, the status, and what the gap callback is called with.
-- The subtractions run only at `seq_num > expected_`.
unfoldable pub check : SequenceTracker → ℕ → SequenceTracker × SequenceStatus × Option (ℕ × ℕ)
check t seq_num =
    let expected = t.expected in
    if not t.initialized
    then (record t { initialized = true; expected = add64 seq_num 1 }, ok, none)
    else if seq_num == expected
    then (record t { expected = add64 expected 1 }, ok, none)
    else if ltb seq_num expected
    then (record t { duplicate_count = add64 t.duplicate_count 1 }, duplicate, none)
    else (
      record t {
        total_gap_count = add64 t.total_gap_count (seq_num - expected);
        gaps = t.gaps ++ (record { from = expected; to = seq_num - 1 } ∷ []);
        expected = add64 seq_num 1;
      },
      gap,
      some (expected, seq_num),
    )

-- `SequenceTracker::reset`
unfoldable pub reset : SequenceTracker → SequenceTracker
reset t = record t {
  expected = 0;
  initialized = false;
  gaps = [];
  total_gap_count = 0;
  duplicate_count = 0;
}

-- `SequenceTracker::last_seq`
unfoldable pub last_seq : SequenceTracker → ℕ
last_seq t = if ltb 0 t.expected then t.expected - 1 else 0

-- A receiver that checks each number in turn.
unfoldable pub check_all : SequenceTracker → List ℕ → SequenceTracker
check_all t [] = t
check_all t (n ∷ ns) = check_all (check t n).0 ns
