-- ===== src/Protocol/Sequence/Accounting.antt =====
-- What the tracker knows of the numbers that it was shown.
use real_time_market_data_fe.Base.{
  ℕ, ◌+◌, ◌-◌, ◌%◌, ◌<◌, ◌≡◌, refl, ◌==◌, ltb, leb, ◌&&◌, ◌||◌, Bool, true, false, List, [], ◌∷◌,
  ◌++◌, length, arith, All,
}
use real_time_market_data_fe.Base.Words.{add64, u64_mod}
use real_time_market_data_fe.Protocol.Sequence.{
  SequenceStatus, ok, gap, duplicate, GapRange, SequenceTracker, new_tracker, check, check_all,
}

abbrev pub received : ℕ → List ℕ → Bool
received n [] = false
received n (m ∷ ms) = n == m || received n ms

-- `n` lies in a recorded gap.
abbrev pub missed : ℕ → List GapRange → Bool
missed n [] = false
missed n (g ∷ gs) = (leb g.from n && leb n g.to) || missed n gs

abbrev pub gap_sizes : List GapRange → ℕ
gap_sizes [] = 0
gap_sizes (g ∷ gs) = g.to + 1 - g.from + gap_sizes gs

missed-snoc :
    (n : ℕ) (gs : List GapRange) (g : GapRange)
    → missed n (gs ++ (g ∷ [])) ≡ (leb g.from n && leb n g.to) || missed n gs
missed-snoc n [] g = refl
missed-snoc n (h ∷ gs) g = ground (arith, missed-snoc n gs g)

gap_sizes-snoc :
    (gs : List GapRange) (g : GapRange)
    → gap_sizes (gs ++ (g ∷ [])) ≡ gap_sizes gs + (g.to + 1 - g.from)
gap_sizes-snoc [] g = omega arith
gap_sizes-snoc (h ∷ gs) g = omega (arith, gap_sizes-snoc gs g)

-- The books of a tracker that was shown `first` first, whose accepted numbers are `accepted` and
-- which turned `again` numbers away: each number from `first` up to `expected` was accepted or is in a
-- recorded gap, no number is both and no other is either; the sums are right.
pub record Tracks (first : ℕ) (accepted : List ℕ) (again : ℕ) (t : SequenceTracker) : Type 0 where
  pub started : t.initialized ≡ true
  pub window :
      (n : ℕ) → (received n accepted || missed n t.gaps) ≡ (leb first n && ltb n t.expected)
  pub disjoint : (n : ℕ) → (received n accepted && missed n t.gaps) ≡ false
  pub missing : t.total_gap_count ≡ gap_sizes t.gaps
  pub balance : length accepted + t.total_gap_count + first ≡ t.expected
  pub repeats : t.duplicate_count ≡ again % u64_mod
  pub no_wrap : t.expected < u64_mod

abbrev pub accept : SequenceStatus → ℕ → List ℕ → List ℕ
accept duplicate n acc = acc
accept ok n acc = n ∷ acc
accept gap n acc = n ∷ acc

abbrev pub turn_away : SequenceStatus → ℕ → ℕ
turn_away duplicate k = k + 1
turn_away ok k = k
turn_away gap k = k

module _ (first : ℕ) (accepted : List ℕ) (again : ℕ) (t : SequenceTracker)
    (v : Tracks first accepted again t) (n : ℕ) (h : n + 1 < u64_mod) where
  check_next :
      n ≡ t.expected
      → Tracks first (n ∷ accepted) again (record t { expected = add64 t.expected 1 })
  check_next e = record {
    started = v.started;
    window = λ m. ground (arith, v.window m, v.balance);
    disjoint = λ m. ground (arith, v.window m, v.disjoint m);
    missing = v.missing;
    balance = omega (arith, v.balance);
    repeats = v.repeats;
    no_wrap = omega arith;
  }

  check_again :
      Tracks first accepted (again + 1) (record t { duplicate_count = add64 t.duplicate_count 1 })
  check_again = record {
    started = v.started;
    window = v.window;
    disjoint = v.disjoint;
    missing = v.missing;
    balance = v.balance;
    repeats = omega (arith, v.repeats);
    no_wrap = v.no_wrap;
  }

  check_ahead :
      t.expected < n
      → Tracks first (n ∷ accepted) again (record t {
        total_gap_count = add64 t.total_gap_count (n - t.expected);
        gaps = t.gaps ++ (record { from = t.expected; to = n - 1 } ∷ []);
        expected = add64 n 1;
      })
  check_ahead lt =
      let g : GapRange = record { from = t.expected; to = n - 1 } in
      record {
        started = v.started;
        window = λ m. ground (arith, v.window m, v.balance, missed-snoc m t.gaps g);
        disjoint = λ m. ground (arith, v.window m, v.disjoint m, missed-snoc m t.gaps g);
        missing = omega (arith, v.missing, v.balance, v.no_wrap, gap_sizes-snoc t.gaps g);
        balance = omega (arith, v.balance, v.no_wrap);
        repeats = v.repeats;
        no_wrap = omega arith;
      }

  -- Checking a number keeps the books: an `ok` or a gap accepts it, a duplicate turns it away.
  pub check-Tracks :
      let (t', status, called) = check t n in
      Tracks first (accept status n accepted) (turn_away status again) t'
  unfolding check
  check-Tracks = ground (arith, v.started, check_next, check_again, check_ahead)

-- The numbers that `check_all` accepts, latest first, and how many it turns away.
abbrev pub accepts : SequenceTracker → List ℕ → List ℕ → List ℕ
accepts t [] acc = acc
accepts t (n ∷ ns) acc = accepts (check t n).0 ns (accept (check t n).1 n acc)

abbrev pub turned_away : SequenceTracker → List ℕ → ℕ → ℕ
turned_away t [] k = k
turned_away t (n ∷ ns) k = turned_away (check t n).0 ns (turn_away (check t n).1 k)

check_all-Tracks :
    (first : ℕ) (acc : List ℕ) (again : ℕ) (t : SequenceTracker) (ns : List ℕ)
    → Tracks first acc again t
    → All (λ n. n + 1 < u64_mod) ns
    → Tracks first (accepts t ns acc) (turned_away t ns again) (check_all t ns)
unfolding check_all
check_all-Tracks first acc again t [] v h = v
check_all-Tracks first acc again t (n ∷ ns) v h =
    check_all-Tracks first (accept (check t n).1 n acc) (turn_away (check t n).1 again)
      (check t n).0 ns (check-Tracks first acc again t v n h.0) h.1

first-Tracks : (n : ℕ) → n + 1 < u64_mod → Tracks n (n ∷ []) 0 (check new_tracker n).0
unfolding check
first-Tracks n h = record {
  started = refl;
  window = λ m. ground arith;
  disjoint = λ m. ground arith;
  missing = refl;
  balance = omega arith;
  repeats = refl;
  no_wrap = omega arith;
}

-- After any numbers below 2^64 - 1, shown to a new tracker, its books are right: every number from
-- the first one up to `expected` was accepted or lies in a recorded gap, never both, and no number
-- outside; the gap count is the sum of the gaps and, with the accepted numbers, makes up the window;
-- the duplicate count is the number of calls turned away, modulo 2^64.
pub check_all_lem :
    (first : ℕ) (ns : List ℕ)
    → first + 1 < u64_mod
    → All (λ n. n + 1 < u64_mod) ns
    → let t = (check new_tracker first).0 in
      Tracks first (accepts t ns (first ∷ [])) (turned_away t ns 0) (check_all t ns)
check_all_lem first ns h hs =
    check_all-Tracks first (first ∷ []) 0 (check new_tracker first).0 ns (first-Tracks first h) hs
