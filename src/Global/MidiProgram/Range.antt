-- ===== src/Global/MidiProgram/Range.antt =====
-- The programs stay in their range, whatever the calls.
use open_deck.Prelude.{
  ℕ, zero, suc, ◌+◌, ◌%◌, ◌≤◌, ◌≡◌, Bool, List, [], ◌∷◌, All, arith, length, length-set, get_or,
  set, if-both, not, get_or-set_self, get_or-set_ne, leb, ◌&&◌, ◌⊎◌, true, Bool-cases, inl, inr,
  ◌==◌, ltb, if◌then◌else◌,
}
use open_deck.Util.IncDec.Range.{increment-edge, decrement-edge}
use open_deck.Util.IncDec.{increment, decrement, edge}
use open_deck.Global.MidiProgram.{
  MidiProgram, program, increment_program, decrement_program, set_program, set_offset,
  increment_offset, decrement_offset, store_program,
}

-- The calls that change the programs or the offset.
pub data Call : Type 0 where
  increment_by decrement_by set_to : ℕ → ℕ → Call
  offset_to offset_up offset_down : ℕ → Call

pub run : MidiProgram → Call → MidiProgram
unfolding increment_program decrement_program set_program set_offset increment_offset
    decrement_offset
run m (increment_by channel steps) = (increment_program m channel steps).1
run m (decrement_by channel steps) = (decrement_program m channel steps).1
run m (set_to channel new_program) = (set_program m channel new_program).1
run m (offset_to offset) = set_offset m offset
run m (offset_up steps) = (increment_offset m steps).1
run m (offset_down steps) = (decrement_offset m steps).1

pub run_all : MidiProgram → List Call → MidiProgram
run_all m [] = m
run_all m (c ∷ cs) = run_all (run m c) cs

-- A table of 17 programs of seven bits.
abbrev pub IsTable : MidiProgram → Type 0
IsTable m = (length m.programs ≡ 17) × All (λ p. p ≤ 127) m.programs

abbrev AfterCall : Bool × MidiProgram → Type 0
AfterCall r = IsTable r.1

All-set :
    (ps : List ℕ) (i p : ℕ) → p ≤ 127 → All (λ q. q ≤ 127) ps → All (λ q. q ≤ 127) (set ps i p)
All-set [] i p h a = a
All-set (q ∷ ps) zero p h a = (h, a.1)
All-set (q ∷ ps) (suc i) p h a = (a.0, All-set ps i p h a.1)

All-get_or : (ps : List ℕ) (i : ℕ) → All (λ q. q ≤ 127) ps → get_or ps i 0 ≤ 127
All-get_or [] i a = omega arith
All-get_or (q ∷ ps) zero a = a.0
All-get_or (q ∷ ps) (suc i) a = All-get_or ps i a.1

set-IsTable :
    (m : MidiProgram) (i p : ℕ)
    → p ≤ 127
    → IsTable m
    → IsTable (record m { programs = set m.programs i p })
set-IsTable m i p h t =
    (omega (arith, length-set m.programs i p, t.0), All-set m.programs i p h t.1)

store_program-IsTable :
    (m : MidiProgram) (i p : ℕ) → p ≤ 127 → IsTable m → IsTable (store_program m i p).1
unfolding store_program
store_program-IsTable m i p h t =
    if-both AfterCall (not (p == get_or m.programs i 0)) _ _ (set-IsTable m i p h t) t

run-IsTable : (m : MidiProgram) (c : Call) → IsTable m → IsTable (run m c)
unfolding run increment_program decrement_program set_program set_offset increment_offset
    decrement_offset
run-IsTable m (increment_by channel steps) t =
    let old = All-get_or m.programs channel t.1 in
    let n = (steps + m.offset) % 256 in
    if-both AfterCall (ltb 16 channel) _ _ t (
      store_program-IsTable m channel (increment 127 (get_or m.programs channel 0) n edge)
        (omega (arith, increment-edge 127 (get_or m.programs channel 0) n)) t)
run-IsTable m (decrement_by channel steps) t =
    let old = All-get_or m.programs channel t.1 in
    let n = (steps + m.offset) % 256 in
    if-both AfterCall (ltb 16 channel) _ _ t (
      store_program-IsTable m channel (decrement 0 127 (get_or m.programs channel 0) n edge)
        (omega (arith, decrement-edge 127 (get_or m.programs channel 0) n)) t)
run-IsTable m (set_to channel new_program) t =
    elim (Bool-cases (ltb 127 ((new_program + m.offset) % 256))) [
      | inl large ↦ if-both AfterCall (ltb 16 channel) _ _ t (ground arith)
      | inr fits ↦
          if-both AfterCall (ltb 16 channel) _ _ t
            (rw fits (set-IsTable m channel ((new_program + m.offset) % 256) (ground arith) t))
    ]
run-IsTable m (offset_to offset) t = t
run-IsTable m (offset_up steps) t = if-both AfterCall _ _ _ t t
run-IsTable m (offset_down steps) t = if-both AfterCall _ _ _ t t

-- Whatever calls are made, a table of 17 programs of at most 127 stays one.
pub run_all-IsTable : (m : MidiProgram) (cs : List Call) → IsTable m → IsTable (run_all m cs)
unfolding run_all
run_all-IsTable m [] t = t
run_all-IsTable m (c ∷ cs) t = run_all-IsTable (run m c) cs (run-IsTable m c t)

-- the result of a call of `set_program` and the programs that it leaves
pub record Changed (m : MidiProgram) (channel new_program : ℕ) (r : Bool × MidiProgram)
    : Type 0 where
  pub taken : r.0 ≡ (leb channel 16 && leb ((new_program + m.offset) % 256) 127)
  pub programs :
      (other : ℕ)
      → program r.1 other
        ≡ (if r.0 && other == channel then (new_program + m.offset) % 256 else program m other)
  pub offset : r.1.offset ≡ m.offset
  pub published : r.1.published ≡ m.published
  pub unchanged : (r.0 ≡ true) ⊎ (r.1 ≡ m)

program-set_program :
    (m : MidiProgram) (channel new_program other : ℕ)
    → length m.programs ≡ 17
    → let (ok, m') = set_program m channel new_program in
      program m' other
      ≡ (if ok && other == channel then (new_program + m.offset) % 256 else program m other)
unfolding set_program program
program-set_program m channel new_program other size = ground (
  arith,
  get_or-set_self m.programs channel ((new_program + m.offset) % 256) 0,
  get_or-set_ne m.programs channel other ((new_program + m.offset) % 256) 0,
)

-- For a table of 17 programs, a call of `set_program` with any channel and any program is taken
-- exactly for a channel of at most 16 and a program of at most 127 once the offset is added. Then
-- that channel has the shifted program, and all other channels keep theirs; otherwise nothing at all
-- changes. The offset and what is published are kept.
pub set_program-Changed :
    (m : MidiProgram) (channel new_program : ℕ)
    → length m.programs ≡ 17
    → Changed m channel new_program (set_program m channel new_program)
unfolding set_program
set_program-Changed m channel new_program size = record {
  taken = ground arith;
  programs = λ other. program-set_program m channel new_program other size;
  offset = ground arith;
  published = ground arith;
  unchanged = elim (Bool-cases (set_program m channel new_program).0) [
    | inl ok ↦ inl ok
    | inr no_change ↦ inr (ground arith)
  ];
}
