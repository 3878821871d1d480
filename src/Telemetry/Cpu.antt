-- ===== src/Telemetry/Cpu.antt =====
-- crates/levshell-modules/src/telemetry/cpu.rs from a sample of /proc/stat on. A u64 wraps, as it does
-- without overflow checks; a sum of several is reduced once. f64 is a parameter. What is offered to
-- the shell and published on the bus is the output; the state is taken to serialise. Reading and
-- parsing the files are left out.
pub mod Usage
pub mod Window
use levshell.Prelude.{
  ℕ, ◌+◌, ◌-◌, ◌%◌, ◌^◌, ◌==◌, Bool, true, false, Option, none, some, List, [], ◌∷◌, ◌++◌, length,
  if◌then◌else◌,
}
use levshell.Escalation.{
  EscalationLevel, EscalationTracker, ambient, aware, attention, critical, step,
}

-- What the module takes from f64: 0.0, `a as f64 / b as f64 * 100.0`, and `>=` with a whole number.
pub record Percents (N : Type 0) : Type 0 where
  pub zero_percent : N
  pub ratio : (part whole : ℕ) → N
  pub at_least : N → ℕ → Bool

pub record CpuSample : Type 0 where
  pub user : ℕ
  pub nice : ℕ
  pub system : ℕ
  pub idle : ℕ
  pub iowait : ℕ
  pub irq : ℕ
  pub softirq : ℕ
  pub steal : ℕ

pub record CpuState (N : Type 0) : Type 0 where
  pub usage_percent : N
  pub load_avg_1 : Option N
  pub history : List N

pub record CpuModule (N : Type 0) : Type 0 where
  pub last_sample : Option CpuSample
  pub escalation : EscalationTracker
  pub history : List N

-- A WidgetUpdate for the shell, or the CriticalEscalation with its percentage.
pub data Output (N : Type 0) : Type 0 where
  update : CpuState N → EscalationLevel → Output N
  escalated : N → Output N

abbrev pub history_len : ℕ
history_len = 60

abbrev pub u64_sub : ℕ → ℕ → ℕ
u64_sub a b = (a + 2 ^ 64 - b) % 2 ^ 64

unfoldable pub total : CpuSample → ℕ
total c = (c.user + c.nice + c.system + c.idle + c.iowait + c.irq + c.softirq + c.steal) % 2 ^ 64

unfoldable pub idle_total : CpuSample → ℕ
idle_total c = (c.idle + c.iowait) % 2 ^ 64

unfoldable pub pop_front {ℓ} : {A : Type ℓ} → List A → List A
pop_front [] = []
pop_front (x ∷ xs) = xs

unfoldable pub push_sample {ℓ} : {A : Type ℓ} → List A → A → List A
push_sample h x = if length h == history_len then pop_front h ++ (x ∷ []) else h ++ (x ∷ [])

module _ {N : Type 0} (percents : Percents N) where
  unfoldable pub raw_escalation : N → EscalationLevel
  raw_escalation usage =
      if percents.at_least usage 95
      then critical
      else if percents.at_least usage 85
      then attention
      else if percents.at_least usage 60
      then aware
      else ambient

  unfoldable pub usage_percent : CpuSample → CpuSample → N
  usage_percent curr prev =
      let all = total curr - total prev in
      let unused = idle_total curr - idle_total prev in
      if all == 0 then percents.zero_percent else percents.ratio (u64_sub all unused) all

  unfoldable pub publish : CpuModule N → CpuState N → CpuModule N × List (Output N)
  publish m state =
      let (tracker, outcome) = step m.escalation (raw_escalation state.usage_percent) in
      (
        record m { escalation = tracker },
        update state outcome.level
            ∷ (if outcome.entered_critical then escalated state.usage_percent ∷ [] else []),
      )

  abbrev pub after_sample :
      CpuModule N → Option CpuSample → CpuSample → Option N → CpuModule N × List (Output N)
  after_sample m none sample load = (m, [])
  after_sample m (some prev) sample load =
      let usage = usage_percent sample prev in
      let history = push_sample m.history usage in
      publish (record m { history = history })
        (record { usage_percent = usage; load_avg_1 = load; history = history })

  unfoldable pub tick : CpuModule N → CpuSample → Option N → CpuModule N × List (Output N)
  tick m sample load =
      let (m1, out) = after_sample m m.last_sample sample load in
      (record m1 { last_sample = some sample }, out)
